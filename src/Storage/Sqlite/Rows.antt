-- ===== src/Storage/Sqlite/Rows.antt =====
-- internal/storage/sqlite.go: transactions, and the reading and writing of one member or session.
use p2p_server.Base.{
  ℕ, ◌%◌, String, Bool, not, ◌&&◌, List, [], ◌∷◌, ◌++◌, Result, ok, ◌>>=◌, ◌>>◌, reject_if, or_fail,
  ltb, ◌==◌, same, if◌then◌else◌, String_discrete,
}
use p2p_server.Base.Dict.{lookup}
use p2p_server.Base.Search.{any, keep}
use p2p_server.Base.Table.{update_where}
use p2p_server.Storage.{
  Env, StoreError, not_found, member_missing, conflict, database_failed, MemberRecord,
  SessionRecord,
}
use p2p_server.Storage.Memory.{check_context, is_taken, normalize_code}
use p2p_server.Storage.Sqlite.{
  SessionRow, MemberRow, Tables, Json, time_to_sql, time_from_sql, bool_to_int, marshal, unmarshal,
}

-- `inTx` around a body, which has run on the tables as they were when the transaction began.
-- Another error of the driver, in the body, is rolled back as one of `Commit` is.
abbrev pub in_tx : {A : Type 0} → Env → Result StoreError A → Result StoreError A
in_tx env body = do
  check_context env
  reject_if env.db_refuses database_failed
  a ← body
  reject_if env.commit_fails database_failed
  ok a

-- `WHERE session_id = ?`
abbrev pub of_session : String → MemberRow → Bool
of_session sid r = same r.session_id sid

-- `WHERE session_id = ? AND id = ?`
abbrev pub is_member : String → String → MemberRow → Bool
is_member sid mid r = same r.session_id sid && same r.id mid

-- The rows with one key in the unique index of `members`.
abbrev pub has_index : String → ℕ → MemberRow → Bool
has_index sid i r = same r.session_id sid && r.member_index == i

-- The columns of a member, as INSERT and UPDATE get them.
unfoldable pub encode_member : Json → String → MemberRecord → Result StoreError MemberRow
encode_member c sid m = do
  caps ← marshal c.strings m.capabilities
  cands ← marshal c.addresses m.candidates
  ok record {
    session_id = sid;
    id = m.id;
    member_index = m.index;
    node_id = m.node_id;
    public_key = m.public_key;
    role = m.role;
    status = m.status;
    capabilities = caps;
    candidates = cands;
    connection_id = m.connection_id;
    joined_at = time_to_sql m.joined_at;
    last_seen = time_to_sql m.last_seen;
    leave_at = time_to_sql m.leave_at;
  }

-- `INSERT INTO members`, under the primary key, the unique index and the foreign key.
unfoldable pub insert_row : MemberRow → Tables → Result StoreError Tables
insert_row r t = do
  reject_if (any (is_member r.session_id r.id) t.members) conflict
  reject_if (any (has_index r.session_id r.member_index) t.members) conflict
  reject_if (not (is_taken r.session_id t.sessions)) database_failed
  ok (record t { members = t.members ++ r ∷ [] })

-- `insertMember` and `insertMemberQ`
unfoldable pub insert_member : Json → String → MemberRecord → Tables → Result StoreError Tables
insert_member c sid m t = do row ← encode_member c sid m; insert_row row t

-- The columns that the UPDATE sets.
abbrev pub assign_row : MemberRow → MemberRow → MemberRow
assign_row new old = record new { session_id = old.session_id; id = old.id }

-- The rows that would share an index with the row written.
abbrev pub has_clash : String → String → ℕ → MemberRow → Bool
has_clash sid mid i r = has_index sid i r && not (same r.id mid)

-- `updateMemberRow`
unfoldable pub update_member_row : Json → String → MemberRecord → Tables → Result StoreError Tables
update_member_row c sid m t = do
  row ← encode_member c sid m
  reject_if (any (is_member sid m.id) t.members && any (has_clash sid m.id m.index) t.members)
      conflict
  reject_if (not (any (is_member sid m.id) t.members))
      (if is_taken sid t.sessions then member_missing else not_found)
  ok (record t { members = update_where (is_member sid m.id) (assign_row row) t.members })

-- `scanMember`
unfoldable pub scan_member : Json → String → MemberRow → Result StoreError MemberRecord
scan_member c sid r = do
  caps ← unmarshal c.strings r.capabilities
  cands ← unmarshal c.addresses r.candidates
  ok record {
    id = r.id;
    session_id = sid;
    index = r.member_index % 65536;
    node_id = r.node_id;
    public_key = r.public_key;
    role = r.role;
    status = r.status;
    capabilities = caps;
    candidates = cands;
    connection_id = r.connection_id;
    joined_at = time_from_sql r.joined_at;
    last_seen = time_from_sql r.last_seen;
    leave_at = time_from_sql r.leave_at;
  }

-- The loop over the rows.
unfoldable pub scan_all : Json → String → List MemberRow → Result StoreError (List MemberRecord)
scan_all c sid [] = ok []
scan_all c sid (r ∷ rs) = do m ← scan_member c sid r; ms ← scan_all c sid rs; ok (m ∷ ms)

-- `ORDER BY member_index`
unfoldable pub insert_by_index : MemberRow → List MemberRow → List MemberRow
insert_by_index r [] = r ∷ []
insert_by_index r (x ∷ xs) =
    if ltb x.member_index r.member_index then x ∷ insert_by_index r xs else r ∷ x ∷ xs

unfoldable pub order_by_index : List MemberRow → List MemberRow
order_by_index [] = []
order_by_index (r ∷ rs) = insert_by_index r (order_by_index rs)

abbrev pub rows_of : String → Tables → List MemberRow
rows_of sid t = keep (of_session sid) t.members

-- `loadMembers`
unfoldable pub load_members : Json → String → Tables → Result StoreError (List MemberRecord)
load_members c sid t = scan_all c sid (order_by_index (rows_of sid t))

-- `scanSession`, of the row under a key.
unfoldable pub scan_session : String → SessionRow → SessionRecord
scan_session sid row = record {
  id = sid;
  mode = row.mode;
  join_code = row.join_code;
  token_hash = row.token_hash;
  join_limit = row.join_limit;
  joins_used = row.joins_used;
  max_members = row.max_members;
  require_approval = not (row.require_approval == 0);
  owner_member_id = row.owner_member_id;
  revoked = not (row.revoked == 0);
  closed = not (row.closed == 0);
  created_at = time_from_sql row.created_at;
  expires_at = time_from_sql row.expires_at;
  idle_timeout = row.idle_timeout;
  members = [];
}

-- `loadSession`
unfoldable pub load_session : Json → String → Tables → Result StoreError SessionRecord
load_session c sid t = do
  row ← or_fail (lookup String_discrete sid t.sessions) not_found
  ms ← load_members c sid t
  ok (record (scan_session sid row) { members = ms })

-- The columns of the INSERT of `Create`.
unfoldable pub session_row : SessionRecord → SessionRow
session_row rec = record {
  mode = rec.mode;
  join_code = rec.join_code;
  join_code_norm = normalize_code rec.join_code;
  token_hash = rec.token_hash;
  join_limit = rec.join_limit;
  joins_used = rec.joins_used;
  max_members = rec.max_members;
  require_approval = bool_to_int rec.require_approval;
  owner_member_id = rec.owner_member_id;
  revoked = bool_to_int rec.revoked;
  closed = bool_to_int rec.closed;
  created_at = time_to_sql rec.created_at;
  expires_at = time_to_sql rec.expires_at;
  idle_timeout = rec.idle_timeout;
}
