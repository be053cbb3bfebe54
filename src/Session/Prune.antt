-- ===== src/Session/Prune.antt =====
-- internal/session/service.go: `Prune`, which collects sessions and members that have gone.
use p2p_server.Base.{
  ℕ, ◌+◌, ◌-◌, String, Bool, true, false, not, ◌&&◌, ◌||◌, List, [], ◌∷◌, Result, ok, err, ◌>>=◌,
  map_err, ltb, ◌==◌, if◌then◌else◌, min,
}
use p2p_server.Protocol.{is_active}
use p2p_server.Storage.{Env, StoreError, MemberRecord, SessionRecord, Store, is_expired, is_online}
use p2p_server.Session.{ServiceError, store_failed, max_duration, Service}

pub record PruneResult : Type 0 where
  pub sessions_expired : ℕ
  pub members_expired : ℕ

-- `a.Sub(b)`: it saturates at the largest duration, and a negative one is 0 here, which a test
-- against a positive bound does not tell apart.
abbrev pub sub_time : ℕ → ℕ → ℕ
sub_time a b = min (a - b) max_duration

-- The loop of `allIdle`: `since` and `found` so far.
unfoldable pub idle_from : SessionRecord → List MemberRecord → ℕ → Bool → Bool × ℕ
idle_from rec [] since found = if found then (true, since) else (true, rec.created_at)
idle_from rec (m ∷ ms) since found =
    let skip = idle_from rec ms since found in
    let earlier = not (m.leave_at == 0) && ((since == 0) || ltb m.leave_at since) in
    let next = idle_from rec ms (if earlier then m.leave_at else since) true in
    if not (is_active m.status) then skip else if is_online m then (false, 0) else next

-- `allIdle`
unfoldable pub all_idle : SessionRecord → Bool × ℕ
all_idle rec = idle_from rec rec.members 0 false

-- The tests for which a whole session is collected.
unfoldable pub is_over : ℕ → SessionRecord → Bool
is_over now rec = is_expired rec now || rec.closed

unfoldable pub is_idle : ℕ → SessionRecord → Bool
is_idle now rec =
    ltb 0 rec.idle_timeout
    && ((all_idle rec).0 && ltb rec.idle_timeout (sub_time now (all_idle rec).1))

-- The test for which a member is collected.
unfoldable pub is_gone : ℕ → ℕ → MemberRecord → Bool
is_gone now grace m = not (is_online m || (m.leave_at == 0)) && ltb grace (sub_time now m.leave_at)

module _ (st : Store) where
  -- `if err := …; err == nil { count++ }`
  abbrev or_same : Result StoreError st.State → st.State → ℕ → st.State × ℕ
  or_same (ok state') state n = (state', n + 1)
  or_same (err _) state n = (state, n)

  unfoldable pub prune_members :
      Env → Service → String → List MemberRecord → st.State → PruneResult → st.State × PruneResult
  prune_members env s sid [] state res = (state, res)
  prune_members env s sid (m ∷ ms) state res =
      let (state', n) = or_same (st.remove_member env sid m.id state) state res.members_expired in
      let removed = prune_members env s sid ms state' (record res { members_expired = n }) in
      let kept = prune_members env s sid ms state res in
      if is_gone s.now s.config.member_grace m then removed else kept

  unfoldable pub prune_session :
      Env → Service → SessionRecord → st.State → PruneResult → st.State × PruneResult
  prune_session env s rec state res =
      let (state', n) = or_same (st.delete env rec.id state) state res.sessions_expired in
      if is_over s.now rec || is_idle s.now rec
      then (state', record res { sessions_expired = n })
      else prune_members env s rec.id rec.members state res

  unfoldable pub prune_all :
      Env → Service → List SessionRecord → st.State → PruneResult → st.State × PruneResult
  prune_all env s [] state res = (state, res)
  prune_all env s (rec ∷ recs) state res =
      let (state', res') = prune_session env s rec state res in prune_all env s recs state' res'

  -- An error of the store comes back as it is.
  unfoldable pub prune : Env → Service → st.State → Result ServiceError (PruneResult × st.State)
  prune env s state = do
    recs ←
        map_err store_failed
          (st.list env (record { expired_before = 0; closed_only = false; limit = 0 }) state)
    let (state', res) =
        prune_all env s recs state (record { sessions_expired = 0; members_expired = 0 })
    ok (res, state')
