-- ===== src/Storage/Lookup.antt =====
-- What the store answers after `Create`, `RotateToken`, `Delete` and `Revoke`.
use p2p_server.Base.{
  ℕ, ◌≡◌, ◌≢◌, inl, inr, String, true, false, none, some, ok, err, arith, String_discrete,
  Option-cases,
}
use p2p_server.Base.Dict.{lookup-erase, lookup-insert_self}
use p2p_server.Storage.{
  Env, not_found, revoked, SessionRecord, MemberRecord, JoinRequest, is_expired, member_by_node_id,
}
use p2p_server.Storage.Admission.{join_session, admit, rejoin}
use p2p_server.Storage.Invariant.Stored.{session_at, code_at}
use p2p_server.Storage.Memory.{
  MemoryStore, normalize_code, or_now, register_code, create, get, get_by_join_code, delete, revoke,
  join, put_session,
}

-- A session that was created with a join code is found by each spelling of that code, and by its
-- ID.
pub get_by_join_code-create :
    (env env' : Env) (rec rec' : SessionRecord) (s s' : MemoryStore) (code : String)
    → create env rec s ≡ ok (rec', s')
    → rec.join_code ≢ ""
    → normalize_code code ≡ normalize_code rec.join_code
    → env'.ctx_err ≡ none
    → (get_by_join_code env' code s' ≡ ok rec') × (get env' rec.id s' ≡ ok rec')
unfolding create register_code get_by_join_code get
get_by_join_code-create env env' rec rec' s s' code h coded spelled fine =
    let new : SessionRecord = record rec { created_at = or_now env rec.created_at } in
    elim (Option-cases (session_at s rec.id)) [
      | inr (r, e) ↦ absurd (ground (arith, e, h))
      | inl e ↦ elim (Option-cases (code_at s (normalize_code rec.join_code))) [
        | inr (j, f) ↦ absurd (ground (arith, e, f, h, coded))
        | inl f ↦ ground (
          arith,
          lookup-insert_self String_discrete rec.id new s.by_id,
          lookup-insert_self String_discrete (normalize_code rec.join_code) rec.id s.by_code,
        )
      ]
    ]

-- A deleted session that had a join code is found neither by its ID nor by that code.
get-delete :
    (env env' : Env) (sid : String) (rec : SessionRecord) (s s' : MemoryStore)
    → session_at s sid ≡ some rec
    → delete env sid s ≡ ok s'
    → env'.ctx_err ≡ none
    → rec.join_code ≢ ""
    → (get env' sid s' ≡ err not_found) × (get_by_join_code env' rec.join_code s' ≡ err not_found)
unfolding delete get get_by_join_code
get-delete env env' sid rec s s' at h fine coded = (
  ground (arith, lookup-erase String_discrete sid sid s.by_id),
  ground (
    arith,
    lookup-erase String_discrete (normalize_code rec.join_code) (normalize_code rec.join_code)
        s.by_code,
  ),
)

-- After a revocation a node that is no member of the session, which is open and alive, is refused.
pub join-revoke :
    (env env' : Env) (sid : String) (now : ℕ) (req : JoinRequest) (rec : SessionRecord)
    (s s' : MemoryStore)
    → session_at s sid ≡ some rec
    → revoke env sid now s ≡ ok s'
    → env'.ctx_err ≡ none
    → rec.closed ≡ false
    → is_expired rec (or_now env' req.now) ≡ false
    → member_by_node_id rec req.node_id ≡ none
    → join env' sid req s' ≡ err revoked
unfolding revoke join join_session admit is_expired
join-revoke env env' sid now req rec s s' at h fine open_session alive new =
    let gone : SessionRecord = record rec { revoked = true } in
    let found = lookup-insert_self String_discrete sid gone s.by_id in ground (arith, found, new)

-- After a revocation the node of a member of the session, which is open and alive, still comes
-- back.
pub join-revoke_member :
    (env env' : Env) (sid : String) (now : ℕ) (req : JoinRequest) (rec : SessionRecord)
    (m : MemberRecord) (s s' : MemoryStore)
    → session_at s sid ≡ some rec
    → revoke env sid now s ≡ ok s'
    → env'.ctx_err ≡ none
    → rec.closed ≡ false
    → is_expired rec (or_now env' req.now) ≡ false
    → member_by_node_id rec req.node_id ≡ some m
    → (t : MemoryStore) × (join env' sid req s'
        ≡ ok (rejoin req (or_now env' req.now) (record rec { revoked = true }) m, t))
unfolding revoke join join_session is_expired
join-revoke_member env env' sid now req rec m s s' at h fine open_session alive old =
    let gone : SessionRecord = record rec { revoked = true } in
    let found = lookup-insert_self String_discrete sid gone s.by_id in
    (
      put_session sid (rejoin req (or_now env' req.now) gone m).session (put_session sid gone s),
      ground (arith, found, old),
    )
