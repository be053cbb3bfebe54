-- ===== src/Session/Change.antt =====
-- internal/session/service.go: the operations that change a session. A record that the store hands
-- out is a copy, which they change and hand back.
use p2p_server.Base.{
  ℕ, String, not, ◌&&◌, none, some, List, Result, ok, err, ◌>>=◌, ◌>>◌, reject_if, or_fail, map_err,
  ltb, leb, same, length,
}
use p2p_server.Protocol.{MemberStatus, Candidate, is_pending, is_owner, default_max_candidates}
use p2p_server.Storage.{Env, MemberRecord, SessionRecord, Store, member_by_id, active_members}
use p2p_server.Auth.{Crypto}
use p2p_server.Auth.Token.{new_join_token, hash, encode_join_code}
use p2p_server.Session.{
  ServiceError, bad_params, member_not_found, not_owner, stale_connection, session_full,
  rand_failed, map_store_err, Service,
}

-- `owner == nil || owner.Role != RoleOwner`
abbrev pub require_owner : SessionRecord → String → Result ServiceError (Unit {0})
require_owner rec mid = elim (member_by_id rec mid) [
  | none ↦ err not_owner
  | some m ↦ reject_if (not (is_owner m.role)) not_owner
]

module _ (st : Store) where
  abbrev get_session : Env → String → st.State → Result ServiceError SessionRecord
  get_session env sid state = map_err map_store_err (st.get env sid state)

  abbrev put_member : Env → String → MemberRecord → st.State → Result ServiceError st.State
  put_member env sid m state = map_err map_store_err (st.update_member env sid m state)

  unfoldable pub update_candidates :
      Env → Service → String → String → List Candidate → st.State → Result ServiceError st.State
  update_candidates env s sid mid cands state = do
    rec ← get_session env sid state
    m ← or_fail (member_by_id rec mid) member_not_found
    reject_if (ltb default_max_candidates (length cands)) bad_params
    put_member env sid (record m { candidates = cands; last_seen = s.now }) state

  unfoldable pub touch :
      Env → Service → String → String → String → st.State → Result ServiceError st.State
  touch env s sid mid conn state = do
    rec ← get_session env sid state
    m ← or_fail (member_by_id rec mid) member_not_found
    reject_if (not (same conn "") && not (same m.connection_id conn)) stale_connection
    put_member env sid (record m { last_seen = s.now }) state

  unfoldable pub mark_offline :
      Env → Service → String → String → String → st.State → Result ServiceError st.State
  mark_offline env s sid mid conn state =
      map_err map_store_err (st.mark_offline env sid mid conn s.now state)

  unfoldable pub leave : Env → String → String → st.State → Result ServiceError st.State
  leave env sid mid state = map_err map_store_err (st.remove_member env sid mid state)

  unfoldable pub approve :
      Env
      → Service
      → String
      → String
      → String
      → st.State
      → Result ServiceError (MemberRecord × st.State)
  approve env s sid owner_id target_id state = do
    rec ← get_session env sid state
    require_owner rec owner_id
    target ← or_fail (member_by_id rec target_id) member_not_found
    reject_if (not (is_pending target.status)) bad_params
    reject_if (ltb 0 rec.max_members && leb rec.max_members (active_members rec)) session_full
    let target' = record target { status = MemberStatus.active; joined_at = s.now }
    state' ← put_member env sid target' state
    ok (target', state')

  unfoldable pub reject : Env → String → String → String → st.State → Result ServiceError st.State
  reject env sid owner_id target_id state = do
    rec ← get_session env sid state
    require_owner rec owner_id
    reject_if (same owner_id target_id) bad_params
    target ← or_fail (member_by_id rec target_id) member_not_found
    put_member env sid (record target { status = MemberStatus.denied; connection_id = "" }) state

  unfoldable pub revoke : Env → Service → String → st.State → Result ServiceError st.State
  revoke env s sid state = do
    _ ← get_session env sid state
    map_err map_store_err (st.revoke env sid s.now state)

  unfoldable pub rotate :
      Crypto → Env → Service → String → st.State → Result ServiceError (List ℕ × st.State)
  rotate c env s sid state = do
    token ← map_err (λ _. rand_failed) (new_join_token env)
    state' ←
        map_err map_store_err
          (st.rotate_token env sid (hash c token) (encode_join_code c token) s.now state)
    ok (token, state')

  unfoldable pub close : Env → String → st.State → Result ServiceError st.State
  close env sid state = do
    _ ← get_session env sid state
    map_err map_store_err (st.close env sid state)

  unfoldable pub delete : Env → String → st.State → Result ServiceError st.State
  delete env sid state = map_err map_store_err (st.delete env sid state)
