-- ===== src/Storage/Sqlite/Entry.antt =====
-- internal/storage/sqlite.go: `Create` and `Join`.
use p2p_server.Base.{
  ℕ, ◌+◌, String, Bool, true, false, not, ◌&&◌, List, [], ◌∷◌, ◌++◌, none, some, Result, ok, ◌>>=◌,
  ◌>>◌, reject_if, ltb, leb, ◌==◌, same, if◌then◌else◌, String_discrete,
}
use p2p_server.Base.Dict.{lookup, insert}
use p2p_server.Base.Search.{any, modify}
use p2p_server.Storage.{
  Env, StoreError, expired, revoked, closed, full, join_limit, conflict, MemberRecord,
  SessionRecord, active_members, is_expired, has_node_id, member_by_node_id, free_index,
  JoinRequest, JoinOutcome,
}
use p2p_server.Storage.Admission.{revive, new_member, must_wait}
use p2p_server.Storage.Memory.{check_context, or_now, is_taken, normalize_code}
use p2p_server.Storage.Sqlite.{SessionRow, Tables, Json}
use p2p_server.Storage.Sqlite.Rows.{
  in_tx, insert_member, update_member_row, load_session, session_row,
}

-- `WHERE join_code_norm = ?`
abbrev pub has_norm : String → String × SessionRow → Bool
has_norm norm (sid, row) = same row.join_code_norm norm

abbrev pub is_norm_taken : String → Tables → Bool
is_norm_taken norm t = not (same norm "") && any (has_norm norm) t.sessions

-- `INSERT INTO sessions`, under the primary key and the unique index of the codes in use.
unfoldable pub insert_session : SessionRecord → Tables → Result StoreError Tables
insert_session rec t = do
  reject_if (is_taken rec.id t.sessions) conflict
  reject_if (is_norm_taken (normalize_code rec.join_code) t) conflict
  ok (record t { sessions = insert String_discrete rec.id (session_row rec) t.sessions })

-- The loop over `rec.Members`.
unfoldable pub insert_members :
    Json → String → List MemberRecord → Tables → Result StoreError Tables
insert_members c sid [] t = ok t
insert_members c sid (m ∷ ms) t = do t' ← insert_member c sid m t; insert_members c sid ms t'

-- Unlike the store in memory, `Create` leaves `CreatedAt` as the caller set it.
unfoldable pub create :
    Json → Env → SessionRecord → Tables → Result StoreError (SessionRecord × Tables)
create c env rec t = do
  reject_if (same rec.id "") conflict
  in_tx env (do
    reject_if (is_taken rec.id t.sessions) conflict
    reject_if (is_norm_taken (normalize_code rec.join_code) t) conflict
    t' ← insert_session rec t
    t'' ← insert_members c rec.id rec.members t'
    ok (rec, t''))

-- `UPDATE sessions SET … WHERE id = ?`
unfoldable pub set_session : String → (SessionRow → SessionRow) → Tables → Tables
set_session sid f t = elim (lookup String_discrete sid t.sessions) [
  | none ↦ t
  | some row ↦ record t { sessions = insert String_discrete sid (f row) t.sessions }
]

-- The statement after the INSERT of a member.
unfoldable pub count_join : Bool → String → SessionRow → SessionRow
count_join true owner row = record row { owner_member_id = owner; joins_used = row.joins_used + 1 }
count_join false owner row = record row { joins_used = row.joins_used + 1 }

-- The branch of `Join` for a node that is a member of the session loaded.
unfoldable pub join_again :
    Json
    → String
    → JoinRequest
    → ℕ
    → SessionRecord
    → MemberRecord
    → Tables
    → Result StoreError (JoinOutcome × Tables)
join_again c sid req now rec existing t = do
  let m = revive rec req now existing
  t' ← update_member_row c sid m t
  ok (
    record {
      session = record rec {
        members = modify (has_node_id req.node_id) (revive rec req now) rec.members;
      };
      member = m;
      rejoined = true;
      is_owner = same rec.owner_member_id m.id;
    },
    t',
  )

-- The member that the other branch writes.
unfoldable pub entrant : Env → String → JoinRequest → ℕ → SessionRecord → MemberRecord
entrant env sid req now rec = record (new_member env req now rec (must_wait rec)) {
  session_id = sid;
}

-- The branch of `Join` for a node that is new.
unfoldable pub join_new :
    Json
    → Env
    → String
    → JoinRequest
    → ℕ
    → SessionRecord
    → Tables
    → Result StoreError (JoinOutcome × Tables)
join_new c env sid req now rec t = do
  reject_if rec.revoked revoked
  reject_if (ltb 0 rec.join_limit && leb rec.join_limit rec.joins_used) join_limit
  reject_if
      (not (must_wait rec) && (ltb 0 rec.max_members && leb rec.max_members (active_members rec)))
      full
  reject_if (free_index rec == 0) full
  let m = entrant env sid req now rec
  let first = same rec.owner_member_id ""
  t' ← insert_member c sid m t
  ok (
    record {
      session = record rec {
        owner_member_id = if first then m.id else rec.owner_member_id;
        members = rec.members ++ m ∷ [];
        joins_used = rec.joins_used + 1;
      };
      member = m;
      rejoined = false;
      is_owner = first;
    },
    set_session sid (count_join first m.id) t',
  )

unfoldable pub join_loaded :
    Json
    → Env
    → String
    → JoinRequest
    → ℕ
    → SessionRecord
    → Tables
    → Result StoreError (JoinOutcome × Tables)
join_loaded c env sid req now rec t = elim (member_by_node_id rec req.node_id) [
  | some existing ↦ join_again c sid req now rec existing t
  | none ↦ join_new c env sid req now rec t
]

unfoldable pub join :
    Json → Env → String → JoinRequest → Tables → Result StoreError (JoinOutcome × Tables)
join c env sid req t = do
  check_context env
  let now = or_now env req.now
  in_tx env (do
    rec ← load_session c sid t
    reject_if rec.closed closed
    reject_if (is_expired rec now) expired
    join_loaded c env sid req now rec t)
