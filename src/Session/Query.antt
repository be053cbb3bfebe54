-- ===== src/Session/Query.antt =====
-- internal/session/service.go: the queries. `MemberIndexFor` and its two uses are what the relay
-- takes for membership.
use p2p_server.Base.{
  ℕ, ◌+◌, String, Bool, ◌||◌, Option, none, some, List, [], ◌∷◌, Result, ok, err, ◌>>=◌, ◌>>◌,
  reject_if, or_fail, map_err, if◌then◌else◌, true, false,
}
use p2p_server.Protocol.{is_active, is_pending}
use p2p_server.Storage.{
  Env, MemberRecord, SessionRecord, Store, is_expired, is_online, member_by_id,
}
use p2p_server.Session.{
  ServiceError, store_failed, session_expired, member_not_found, map_store_err, Service,
}

pub record Stats : Type 0 where
  pub sessions : ℕ
  pub members : ℕ
  pub online : ℕ
  pub pending : ℕ

abbrev add_if : Bool → ℕ → ℕ
add_if true n = n + 1
add_if false n = n

-- The inner loop of `Stats`.
pub tally_members : List MemberRecord → Stats → Stats
tally_members [] acc = acc
tally_members (m ∷ ms) acc = tally_members ms (record acc {
  members = acc.members + 1;
  online = add_if (is_online m) acc.online;
  pending = add_if (is_pending m.status) acc.pending;
})

-- Its outer loop.
pub tally : ℕ → List SessionRecord → Stats → Stats
tally now [] acc = acc
tally now (rec ∷ recs) acc = tally now recs (
    if is_expired rec now
    then acc
    else tally_members rec.members (record acc { sessions = acc.sessions + 1 }))

module _ (st : Store) where
  unfoldable pub get : Env → Service → String → st.State → Result ServiceError SessionRecord
  get env s sid state = do
    rec ← map_err map_store_err (st.get env sid state)
    reject_if (is_expired rec s.now) session_expired
    ok rec

  unfoldable pub members :
      Env → Service → String → st.State → Result ServiceError (List MemberRecord)
  members env s sid state = do rec ← get env s sid state; ok rec.members

  unfoldable pub member :
      Env → Service → String → String → st.State → Result ServiceError MemberRecord
  member env s sid mid state = do
    rec ← get env s sid state
    or_fail (member_by_id rec mid) member_not_found

  -- `MemberIndexFor`, which asks with a context of its own that is not done.
  unfoldable pub member_index_for : Env → Service → String → String → st.State → Option ℕ
  member_index_for env s sid mid state = elim (st.get (record env { ctx_err = none }) sid state) [
    | err _ ↦ none
    | ok rec ↦ if is_expired rec s.now || rec.closed then none else elim (member_by_id rec mid) [
      | none ↦ none
      | some m ↦ if is_active m.status then some m.index else none
    ]
  ]

  unfoldable pub is_active_member : Env → Service → String → String → st.State → Bool
  is_active_member env s sid mid state = elim (member_index_for env s sid mid state) [
    | none ↦ false
    | some _ ↦ true
  ]

  -- `MemberIndex`
  abbrev pub member_index : Env → Service → String → String → st.State → Option ℕ
  member_index env s sid mid state = member_index_for env s sid mid state

  -- An error of the store comes back as it is.
  unfoldable pub stats : Env → Service → st.State → Result ServiceError Stats
  unfolding tally tally_members
  stats env s state = do
    recs ←
        map_err store_failed
          (st.list env (record { expired_before = 0; closed_only = false; limit = 0 }) state)
    ok (tally s.now recs (record { sessions = 0; members = 0; online = 0; pending = 0 }))
