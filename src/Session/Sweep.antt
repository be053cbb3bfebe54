-- ===== src/Session/Sweep.antt =====
-- What `Prune` leaves, over the store in memory.
use mathlib.Core.List.{append_assoc}
use p2p_server.Base.{
  ◌+◌, ◌≡◌, refl, ◌≢◌, ◌⊎◌, inl, inr, sym, String, Bool, true, false, not, List, [], ◌∷◌, ◌++◌,
  none, some, ok, arith, All, Bool-cases, String_discrete,
}
use p2p_server.Base.Dict.{lookup-insert_self, lookup-erase}
use p2p_server.Base.Distinct.{Distinct}
use p2p_server.Base.Search.{find, remove_first, keep, count}
use p2p_server.Storage.{Env, MemberRecord, SessionRecord, has_id}
use p2p_server.Storage.Invariant.{ids}
use p2p_server.Storage.Invariant.Stored.{session_at, code_at, IsStore}
use p2p_server.Storage.Memory.{
  MemoryStore, memory, normalize_code, remove_member, delete, put_session,
}
use p2p_server.Session.{Service}
use p2p_server.Session.Prune.{PruneResult, prune_session, prune_members, is_gone, is_over, is_idle}

-- The member in the middle of a list, under an ID that nobody before it has.
find-middle :
    (pre post : List MemberRecord) (m : MemberRecord)
    → All (λ j. j ≢ m.id) (ids pre)
    → (find (has_id m.id) (pre ++ m ∷ post) ≡ some m)
      × (remove_first (has_id m.id) (pre ++ m ∷ post) ≡ pre ++ post)
unfolding find remove_first
find-middle [] post m h = (ground arith, ground arith)
find-middle (x ∷ pre) post m h = ground (arith, find-middle pre post m h.1, h.0)

Distinct-middle :
    (pre post : List MemberRecord) (m : MemberRecord)
    → Distinct (ids (pre ++ m ∷ post))
    → All (λ j. j ≢ m.id) (ids pre) × Distinct (ids (pre ++ post))
Distinct-middle [] post m d = (tt, d.1)
Distinct-middle (x ∷ pre) post m d =
    let (a, e) = Distinct-middle pre post m d.1 in
    let (n, rest) = without pre d.0 in ((n, a), (rest, e))
  where
    without :
        (js : List MemberRecord)
        → All (λ j. j ≢ x.id) (ids (js ++ m ∷ post))
        → (x.id ≢ m.id) × All (λ j. j ≢ x.id) (ids (js ++ post))
    without [] h = ((λ p. h.0 (sym p)), h.1)
    without (j ∷ js) h = let (n, r) = without js h.1 in (n, (h.0, r))

abbrev pub stays : Service → MemberRecord → Bool
stays s m = not (is_gone s.now s.config.member_grace m)

remove_member-middle :
    (env : Env) (sid : String) (rec : SessionRecord) (pre ms : List MemberRecord) (m : MemberRecord)
    (state : MemoryStore)
    → env.ctx_err ≡ none
    → session_at state sid ≡ some (record rec { members = pre ++ m ∷ ms })
    → (find (has_id m.id) (pre ++ m ∷ ms) ≡ some m)
      × (remove_first (has_id m.id) (pre ++ m ∷ ms) ≡ pre ++ ms)
    → remove_member env sid m.id state
      ≡ ok (put_session sid (record rec { members = pre ++ ms }) state)
unfolding remove_member
remove_member-middle env sid rec pre ms m state fine at f = ground (arith, fine, at, f.0, f.1)

-- The members from `ms` on that are gone are removed, and counted; the others stay in order.
pub prune_members-keep :
    (env : Env) (s : Service) (sid : String) (rec : SessionRecord) (pre ms : List MemberRecord)
    (state : MemoryStore) (res : PruneResult)
    → env.ctx_err ≡ none
    → session_at state sid ≡ some (record rec { members = pre ++ ms })
    → Distinct (ids (pre ++ ms))
    → let out = prune_members memory env s sid ms state res in
      (session_at out.0 sid ≡ some (record rec { members = pre ++ keep (stays s) ms }))
      × (out.1.members_expired
          ≡ res.members_expired + count (is_gone s.now s.config.member_grace) ms)
      × (out.1.sessions_expired ≡ res.sessions_expired)
unfolding prune_members keep count
prune_members-keep env s sid rec pre [] state res fine at d = (at, omega arith, refl)
prune_members-keep env s sid rec pre (m ∷ ms) state res fine at d =
    let (apart, distinct) = Distinct-middle pre ms m d in
    let found = find-middle pre ms m apart in
    elim (Bool-cases (is_gone s.now s.config.member_grace m)) [
      | inl gone ↦
          let rec' : SessionRecord = record rec { members = pre ++ ms } in
          let removed = remove_member-middle env sid rec pre ms m state fine at found in
          let ih =
            prune_members-keep env s sid rec pre ms (put_session sid rec' state)
              (record res { members_expired = res.members_expired + 1 }) fine
              (lookup-insert_self String_discrete sid rec' state.by_id) distinct in
          rw (gone, removed) (ih.0, omega (arith, ih.1), ih.2)
      | inr kept ↦
          let shift = append_assoc pre (m ∷ []) in
          let ih =
            prune_members-keep env s sid rec (pre ++ m ∷ []) ms state res fine (rw (shift ms) at)
              (rw (shift ms) d) in
          rw (kept, ← shift (keep (stays s) ms)) ih
    ]

-- In a store that keeps its invariant, a session that is neither over nor idle keeps, in order,
-- the members that are online, were never marked as gone or are within the grace period; the
-- others are removed, and counted.
pub prune_session-keep :
    (env : Env) (s : Service) (rec : SessionRecord) (state : MemoryStore) (res : PruneResult)
    → env.ctx_err ≡ none
    → IsStore state
    → session_at state rec.id ≡ some rec
    → is_over s.now rec ≡ false
    → is_idle s.now rec ≡ false
    → let out = prune_session memory env s rec state res in
      (session_at out.0 rec.id ≡ some (record rec { members = keep (stays s) rec.members }))
      × (out.1.members_expired
          ≡ res.members_expired + count (is_gone s.now s.config.member_grace) rec.members)
      × (out.1.sessions_expired ≡ res.sessions_expired)
unfolding prune_session
prune_session-keep env s rec state res fine v at lives busy =
    rw (lives, busy)
      (prune_members-keep env s rec.id rec [] rec.members state res fine at
        (v.sessions rec.id rec at).0.members.ids_differ)

-- A session with a join code that is over or idle is deleted and counted, and its code leads
-- nowhere.
pub prune_session-delete :
    (env : Env) (s : Service) (rec : SessionRecord) (state : MemoryStore) (res : PruneResult)
    → env.ctx_err ≡ none
    → session_at state rec.id ≡ some rec
    → (is_over s.now rec ≡ true) ⊎ (is_idle s.now rec ≡ true)
    → rec.join_code ≢ ""
    → let out = prune_session memory env s rec state res in
      (session_at out.0 rec.id ≡ none)
      × (code_at out.0 (normalize_code rec.join_code) ≡ none)
      × (out.1 ≡ record res { sessions_expired = res.sessions_expired + 1 })
unfolding prune_session delete
prune_session-delete env s rec state res fine at over coded = (
  ground (arith, fine, at, over, lookup-erase String_discrete rec.id rec.id state.by_id),
  ground (
    arith,
    fine,
    at,
    over,
    coded,
    lookup-erase String_discrete (normalize_code rec.join_code) (normalize_code rec.join_code)
        state.by_code,
  ),
  ground (arith, fine, at, over),
)
