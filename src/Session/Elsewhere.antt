-- ===== src/Session/Elsewhere.antt =====
-- What the work of `Prune` on one session keeps, and that it leaves the other sessions alone.
use p2p_server.Base.{
  ◌≡◌, refl, ◌≢◌, inl, inr, ◌∙◌, String, ◌||◌, List, [], ◌∷◌, ok, arith, Bool-cases, Option-cases,
  Result-cases, String_discrete,
}
use p2p_server.Base.Dict.{lookup-insert_ne, lookup-erase_ne}
use p2p_server.Base.Search.{remove_first}
use p2p_server.Storage.{Env, MemberRecord, SessionRecord, has_id, member_by_id}
use p2p_server.Storage.Invariant.Stored.{session_at}
use p2p_server.Storage.Memory.{MemoryStore, memory, remove_member, delete}
use p2p_server.Session.{Service}
use p2p_server.Session.Prune.{PruneResult, prune_session, prune_members, is_gone, is_over, is_idle}

-- A property of the store that the removals and the deletion in one session keep.
module _ (P : MemoryStore → Type 0) (env : Env) (s : Service) (sid : String)
    (removal : (mid : String) (t t' : MemoryStore)
      → remove_member env sid mid t ≡ ok t'
      → P t
      → P t')
    (deletion : (t t' : MemoryStore) → delete env sid t ≡ ok t' → P t → P t') where
  prune_members_keeps :
      (ms : List MemberRecord) (state : MemoryStore) (res : PruneResult)
      → P state
      → P (prune_members memory env s sid ms state res).0
  unfolding prune_members
  prune_members_keeps [] state res v = v
  prune_members_keeps (m ∷ ms) state res v =
      elim (Bool-cases (is_gone s.now s.config.member_grace m)) [
        | inr remains ↦ rw remains (prune_members_keeps ms state res v)
        | inl gone ↦ elim (Result-cases (remove_member env sid m.id state)) [
          | inl (t, e) ↦ rw (gone, e) (prune_members_keeps ms t _ (removal m.id state t e v))
          | inr (x, e) ↦ rw (gone, e) (prune_members_keeps ms state _ v)
        ]
      ]

  pub prune_session_keeps :
      (rec : SessionRecord) (state : MemoryStore) (res : PruneResult)
      → rec.id ≡ sid
      → P state
      → P (prune_session memory env s rec state res).0
  unfolding prune_session
  prune_session_keeps rec state res same_id v =
      elim (Bool-cases (is_over s.now rec || is_idle s.now rec)) [
        | inr lives ↦ rw (lives, same_id) (prune_members_keeps rec.members state res v)
        | inl over ↦ elim (Result-cases (delete env sid state)) [
          | inl (t, e) ↦ rw (over, same_id, e) (deletion state t e v)
          | inr (x, e) ↦ rw (over, same_id, e) v
        ]
      ]

remove_member-elsewhere :
    (env : Env) (sid mid j : String) (t t' : MemoryStore)
    → sid ≢ j
    → remove_member env sid mid t ≡ ok t'
    → session_at t' j ≡ session_at t j
unfolding remove_member
remove_member-elsewhere env sid mid j t t' n e = elim (Option-cases env.ctx_err) [
  | inr (x, c) ↦ absurd (ground (arith, e, c))
  | inl c ↦ elim (Option-cases (session_at t sid)) [
    | inl z ↦ absurd (ground (arith, e, c, z))
    | inr (rec, z) ↦ elim (Option-cases (member_by_id rec mid)) [
      | inl y ↦ absurd (ground (arith, e, c, z, y))
      | inr (m, y) ↦
          let rec' : SessionRecord = record rec {
            members = remove_first (has_id mid) rec.members;
          } in
          ground (arith, e, c, z, y, lookup-insert_ne String_discrete sid j rec' t.by_id n)
    ]
  ]
]

delete-elsewhere :
    (env : Env) (sid j : String) (t t' : MemoryStore)
    → sid ≢ j
    → delete env sid t ≡ ok t'
    → session_at t' j ≡ session_at t j
unfolding delete
delete-elsewhere env sid j t t' n e = elim (Option-cases env.ctx_err) [
  | inr (x, c) ↦ absurd (ground (arith, e, c))
  | inl c ↦ elim (Option-cases (session_at t sid)) [
    | inl z ↦ absurd (ground (arith, e, c, z))
    | inr (rec, z) ↦ ground (arith, e, c, z, lookup-erase_ne String_discrete sid j t.by_id n)
  ]
]

pub prune_session-elsewhere :
    (env : Env) (s : Service) (rec : SessionRecord) (state : MemoryStore) (res : PruneResult)
    (j : String)
    → rec.id ≢ j
    → session_at (prune_session memory env s rec state res).0 j ≡ session_at state j
prune_session-elsewhere env s rec state res j n =
    prune_session_keeps (λ t. session_at t j ≡ session_at state j) env s rec.id
      (λ mid t t' e w. remove_member-elsewhere env rec.id mid j t t' n e ∙ w)
      (λ t t' e w. delete-elsewhere env rec.id j t t' n e ∙ w) rec state res refl refl
