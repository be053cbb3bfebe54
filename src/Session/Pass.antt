-- ===== src/Session/Pass.antt =====
-- What a whole pass of `Prune` leaves, over the store in memory.
use p2p_server.Base.{
  Bool, not, same, leb, ◌==◌, ◌-◌, min, ◌≡◌, refl, ◌≢◌, inl, inr, sym, ◌∙◌, String, ◌||◌, List, [],
  ◌∷◌, Option, none, some, ok, arith, All, All-map, Bool-cases, Option-cases, String_discrete,
  if◌then◌else◌,
}
use mathlib.Core.Path.{subst}
use p2p_server.Base.Dict.{lookup-erase_self}
use p2p_server.Base.Distinct.{Distinct}
use p2p_server.Base.Keys.{keys}
use p2p_server.Base.Search.{keep}
use p2p_server.Storage.{Env, MemberRecord, SessionRecord, is_online, is_expired}
use p2p_server.Storage.Listing.{list_sessions}
use p2p_server.Storage.Listing.Whole.{
  every, session_ids, IsKeyed, All-entries, All-records, list_sessions-All, All-listed,
  list_sessions-Distinct, list_sessions-absent,
}
use p2p_server.Storage.Invariant.{ids}
use p2p_server.Storage.Invariant.Stored.{session_at, IsStore}
use p2p_server.Storage.Invariant.Writes.{remove_member-IsStore}
use p2p_server.Storage.Invariant.Rotation.{delete-IsStore}
use p2p_server.Storage.Memory.{MemoryStore, memory, list, delete}
use p2p_server.Session.{Service, max_duration}
use p2p_server.Session.Prune.{
  PruneResult, prune, prune_all, prune_session, is_gone, is_over, is_idle,
}
use p2p_server.Session.Sweep.{stays, prune_members-keep}
use p2p_server.Session.Elsewhere.{prune_session_keeps, prune_session-elsewhere}

-- A pass keeps the invariant.
prune_all-IsStore :
    (env : Env) (s : Service) (recs : List SessionRecord) (state : MemoryStore) (res : PruneResult)
    → IsStore state
    → IsStore (prune_all memory env s recs state res).0
unfolding prune_all
prune_all-IsStore env s [] state res v = v
prune_all-IsStore env s (rec ∷ recs) state res v = prune_all-IsStore env s recs _ _ (
    prune_session_keeps IsStore env s rec.id
      (λ mid t t' e w. remove_member-IsStore t t' w env rec.id mid e)
      (λ t t' e w. delete-IsStore t t' w env rec.id e) rec state res refl v)

-- A member is kept who is online, who was never marked as gone, or who went no longer ago than the
-- grace period.
abbrev pub is_kept : Service → MemberRecord → Bool
is_kept s m =
    not (same m.connection_id "")
    || ((m.leave_at == 0) || leb (min (s.now - m.leave_at) max_duration) s.config.member_grace)

stays-is_kept : (s : Service) (m : MemberRecord) → stays s m ≡ is_kept s m
unfolding is_gone is_online
stays-is_kept s m = ground arith

keep-stays : (s : Service) (ms : List MemberRecord) → keep (stays s) ms ≡ keep (is_kept s) ms
unfolding keep
keep-stays s [] = refl
keep-stays s (m ∷ ms) = rw (stays-is_kept s m, keep-stays s ms) refl

-- What a pass makes of what the store has under an ID: nothing of a session that is over or idle,
-- and of any other the session without the members that are gone.
abbrev pub swept : Service → Option SessionRecord → Option SessionRecord
swept s none = none
swept s (some rec) =
    if (is_expired rec s.now || rec.closed) || is_idle s.now rec
    then none
    else some (record rec { members = keep (is_kept s) rec.members })

prune_session-swept :
    (env : Env) (s : Service) (rec : SessionRecord) (state : MemoryStore) (res : PruneResult)
    → env.ctx_err ≡ none
    → session_at state rec.id ≡ some rec
    → Distinct (ids rec.members)
    → session_at (prune_session memory env s rec state res).0 rec.id ≡ swept s (some rec)
unfolding prune_session delete is_over
prune_session-swept env s rec state res fine at d =
    elim (Bool-cases (is_over s.now rec || is_idle s.now rec)) [
      | inl over ↦
          ground (arith, fine, at, over, lookup-erase_self String_discrete rec.id state.by_id)
      | inr lives ↦
          rw (lives, ← keep-stays s rec.members)
            (prune_members-keep env s rec.id rec [] rec.members state res fine at d).0
    ]

prune_all-elsewhere :
    (env : Env) (s : Service) (recs : List SessionRecord) (state : MemoryStore) (res : PruneResult)
    (j : String)
    → All (λ i. i ≢ j) (session_ids recs)
    → session_at (prune_all memory env s recs state res).0 j ≡ session_at state j
unfolding prune_all
prune_all-elsewhere env s [] state res j a = refl
prune_all-elsewhere env s (rec ∷ recs) state res j a =
    prune_all-elsewhere env s recs _ _ j a.1 ∙ prune_session-elsewhere env s rec state res j a.0

-- The session stands in the store as it was listed, and its members differ in their IDs.
abbrev IsListed : MemoryStore → SessionRecord → Type 0
IsListed state r = (session_at state r.id ≡ some r) × Distinct (ids r.members)

IsListed-entry :
    (state : MemoryStore)
    → IsStore state
    → (sid : String) (rec : SessionRecord) → session_at state sid ≡ some rec
    → IsListed state rec
IsListed-entry state v sid rec e =
    let (held, same_id) = v.sessions sid rec e in
    (subst (λ i. session_at state i ≡ some rec) (sym same_id) e, held.members.ids_differ)

prune_all-swept :
    (env : Env) (s : Service) (recs : List SessionRecord) (state : MemoryStore) (res : PruneResult)
    → env.ctx_err ≡ none
    → Distinct (session_ids recs)
    → All (IsListed state) recs
    → All (λ r. session_at (prune_all memory env s recs state res).0 r.id ≡ swept s (some r)) recs
unfolding prune_all
prune_all-swept env s [] state res fine d a = tt
prune_all-swept env s (rec ∷ recs) state res fine d a = (
  prune_all-elsewhere env s recs _ _ rec.id d.0
      ∙ prune_session-swept env s rec state res fine a.0.0 a.0.1,
  prune_all-swept env s recs _ _ fine d.1 (still recs d.0 a.1),
)
  where
    still :
        (rs : List SessionRecord)
        → All (λ i. i ≢ rec.id) (session_ids rs)
        → All (IsListed state) rs
        → All (IsListed (prune_session memory env s rec state res).0) rs
    still [] n l = tt
    still (r ∷ rs) n l = (
      (prune_session-elsewhere env s rec state res r.id (λ p. n.0 (sym p)) ∙ l.0.0, l.0.1),
      still rs n.1 l.1,
    )

-- A pass of `Prune` in a call whose context is not done, over a store that keeps its invariant and
-- whose map has each key once: it succeeds, and the store keeps its invariant. A session that had
-- expired, was closed or was idle by the code's test is no longer found under its ID; any other is
-- found with, in order, the members that are online, were never marked as gone or are within the
-- grace period, and is else as it was; and an ID that led nowhere still does.
pub prune-swept :
    (env : Env) (s : Service) (state : MemoryStore) (sid : String)
    → env.ctx_err ≡ none
    → IsStore state
    → Distinct (keys state.by_id)
    → (out : PruneResult × MemoryStore) × (prune memory env s state ≡ ok out)
      × IsStore out.1
      × (session_at out.1 sid ≡ swept s (session_at state sid))
unfolding prune list
prune-swept env s state sid fine v d =
    let nothing : PruneResult = record { sessions_expired = 0; members_expired = 0 } in
    let entries = All-entries state.by_id d in
    let keyed : IsKeyed state.by_id =
      All-map (λ p e. (v.sessions p.0 p.1 e).1) state.by_id entries in
    let recs = list_sessions every state.by_id in
    let listed = list_sessions-All state.by_id (IsListed state) (
      All-records (IsListed state) state.by_id
        (All-map (λ p e. IsListed-entry state v p.0 p.1 e) state.by_id entries)) in
    let run = prune_all memory env s recs state nothing in
    let each =
      prune_all-swept env s recs state nothing fine (list_sessions-Distinct state.by_id d keyed)
        listed in
    (
      (run.1, run.0),
      rw fine refl,
      prune_all-IsStore env s recs state nothing v,
      elim (Option-cases (session_at state sid)) [
        | inl e ↦
            prune_all-elsewhere env s recs state nothing sid
              (list_sessions-absent state.by_id d keyed sid e)
            ∙ rw e refl
        | inr (rec, e) ↦
            let own =
              All-listed state.by_id (λ r. session_at run.0 r.id ≡ swept s (some r)) sid rec e
                each in
            let same_id = (v.sessions sid rec e).1 in
            rw e (subst (λ i. session_at run.0 i ≡ swept s (some rec)) same_id own)
      ],
    )
