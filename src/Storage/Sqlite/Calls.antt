-- ===== src/Storage/Sqlite/Calls.antt =====
-- internal/storage/sqlite.go: the other methods, and the implementation of the interface.
use p2p_server.Base.{
  ℕ, String, Bool, not, ◌&&◌, ◌||◌, List, [], ◌∷◌, Result, ok, ◌>>=◌, ◌>>◌, reject_if, or_fail, ltb,
  ◌==◌, same, if◌then◌else◌, String_discrete, take, length,
}
use p2p_server.Base.Dict.{lookup, erase}
use p2p_server.Base.Search.{find, any, keep}
use p2p_server.Base.Table.{update_where, delete_where}
use p2p_server.Storage.{
  Env, StoreError, not_found, member_missing, conflict, database_failed, MemberRecord,
  SessionRecord, ListFilter, Store,
}
use p2p_server.Storage.Memory.{check_context, or_now, is_taken, normalize_code}
use p2p_server.Storage.Sqlite.{SessionRow, MemberRow, Tables, Json, time_to_sql, sql_lt}
use p2p_server.Storage.Sqlite.Rows.{
  in_tx, of_session, is_member, update_member_row, load_members, load_session, scan_session,
}
use p2p_server.Storage.Sqlite.Entry.{has_norm, is_norm_taken, set_session, create, join}

unfoldable pub get : Json → Env → String → Tables → Result StoreError SessionRecord
get c env sid t = do
  check_context env
  reject_if env.db_refuses database_failed
  load_session c sid t

unfoldable pub get_by_join_code : Json → Env → String → Tables → Result StoreError SessionRecord
get_by_join_code c env code t = do
  check_context env
  reject_if (same (normalize_code code) "") not_found
  reject_if env.db_refuses database_failed
  (sid, row) ← or_fail (find (has_norm (normalize_code code)) t.sessions) not_found
  load_session c sid t

unfoldable pub update_member :
    Json → Env → String → MemberRecord → Tables → Result StoreError Tables
update_member c env sid m t = do
  check_context env
  reject_if (same m.id "") member_missing
  in_tx env (do reject_if (not (is_taken sid t.sessions)) not_found; update_member_row c sid m t)

unfoldable pub remove_member : Env → String → String → Tables → Result StoreError Tables
remove_member env sid mid t = do
  check_context env
  in_tx env (do
    reject_if (not (is_taken sid t.sessions)) not_found
    reject_if (not (any (is_member sid mid) t.members)) member_missing
    ok (record t { members = delete_where (is_member sid mid) t.members }))

-- `SET connection_id = '', leave_at = ?`
unfoldable pub set_offline : ℕ → MemberRow → MemberRow
set_offline now r = record r { connection_id = ""; leave_at = time_to_sql now }

unfoldable pub mark_offline : Env → String → String → String → ℕ → Tables → Result StoreError Tables
mark_offline env sid mid conn now0 t = do
  check_context env
  let now = or_now env now0
  in_tx env (do
    r ←
        or_fail (find (is_member sid mid) t.members)
          (if is_taken sid t.sessions then member_missing else not_found)
    reject_if (not (same conn "") && not (same r.connection_id conn)) conflict
    ok (record t { members = update_where (is_member sid mid) (set_offline now) t.members }))

-- `execSessionUpdate`
unfoldable pub exec_session_update :
    Env → (SessionRow → SessionRow) → String → Tables → Result StoreError Tables
exec_session_update env f sid t = do
  reject_if env.db_refuses database_failed
  reject_if (not (is_taken sid t.sessions)) not_found
  ok (set_session sid f t)

abbrev pub set_revoked : SessionRow → SessionRow
set_revoked row = record row { revoked = 1 }

abbrev pub set_closed : SessionRow → SessionRow
set_closed row = record row { closed = 1 }

unfoldable pub revoke : Env → String → ℕ → Tables → Result StoreError Tables
revoke env sid now t = do check_context env; exec_session_update env set_revoked sid t

-- A row of another session under a code that is in use.
abbrev pub is_held : String → String → Tables → Bool
is_held sid norm t =
    not (same norm "") && any (λ p. not (same p.0 sid) && has_norm norm p) t.sessions

abbrev pub set_token : String → String → SessionRow → SessionRow
set_token new_hash new_code row = record row {
  join_code = new_code;
  join_code_norm = normalize_code new_code;
  token_hash = new_hash;
  revoked = 0;
}

-- The second `conflict` is the unique index.
unfoldable pub rotate_token : Env → String → String → String → ℕ → Tables → Result StoreError Tables
rotate_token env sid new_hash new_code now t = do
  check_context env
  in_tx env (do
    old ← or_fail (lookup String_discrete sid t.sessions) not_found
    let norm = normalize_code new_code
    reject_if (not (same norm (normalize_code old.join_code)) && is_norm_taken norm t) conflict
    reject_if (is_held sid norm t) conflict
    ok (set_session sid (set_token new_hash new_code) t))

unfoldable pub close : Env → String → Tables → Result StoreError Tables
close env sid t = do check_context env; exec_session_update env set_closed sid t

unfoldable pub delete : Env → String → Tables → Result StoreError Tables
delete env sid t = do
  check_context env
  in_tx env (do
    reject_if (not (is_taken sid t.sessions)) not_found
    ok (record {
      sessions = erase String_discrete sid t.sessions;
      members = delete_where (of_session sid) t.members;
    }))

-- The WHERE of `List`.
unfoldable pub is_selected : ListFilter → String × SessionRow → Bool
is_selected f (sid, row) =
    (not f.closed_only || row.closed == 1)
    && (f.expired_before == 0
        || not (row.expires_at == 0) && sql_lt row.expires_at (time_to_sql f.expired_before))

-- `ORDER BY created_at`
unfoldable pub insert_by_creation :
    String × SessionRow → List (String × SessionRow) → List (String × SessionRow)
insert_by_creation p [] = p ∷ []
insert_by_creation p (q ∷ qs) =
    if sql_lt q.1.created_at p.1.created_at then q ∷ insert_by_creation p qs else p ∷ q ∷ qs

unfoldable pub order_by_creation : List (String × SessionRow) → List (String × SessionRow)
order_by_creation [] = []
order_by_creation (p ∷ ps) = insert_by_creation p (order_by_creation ps)

-- `LIMIT`
unfoldable pub limited : ListFilter → List (String × SessionRow) → List (String × SessionRow)
limited f ps = if ltb 0 f.limit then take f.limit ps else ps

-- The loop that loads the members of each session.
unfoldable pub load_each :
    Json → Tables → List (String × SessionRow) → Result StoreError (List SessionRecord)
load_each c t [] = ok []
load_each c t ((sid, row) ∷ ps) = do
  ms ← load_members c sid t
  recs ← load_each c t ps
  ok (record (scan_session sid row) { members = ms } ∷ recs)

unfoldable pub list : Json → Env → ListFilter → Tables → Result StoreError (List SessionRecord)
list c env f t = do
  check_context env
  reject_if env.db_refuses database_failed
  load_each c t (limited f (order_by_creation (keep (is_selected f) t.sessions)))

-- `Count`, 0 on an error of the driver.
pub size : Env → Tables → ℕ
size env t = if env.db_refuses then 0 else length t.sessions

-- The implementation of the interface.
abbrev pub sqlite : Json → Store
sqlite c = record {
  State = Tables;
  create = create c;
  get = get c;
  get_by_join_code = get_by_join_code c;
  join = join c;
  update_member = update_member c;
  remove_member = remove_member;
  mark_offline = mark_offline;
  revoke = revoke;
  rotate_token = rotate_token;
  close = close;
  delete = delete;
  list = list c;
}
