-- ===== src/Storage/Sqlite/Columns.antt =====
-- What is written in the columns reads back: times, slices, members and sessions.
use p2p_server.Base.{
  ℕ, ◌+◌, ◌%◌, ◌≤◌, ◌<◌, ◌≡◌, refl, ◌≢◌, ◌⊎◌, inl, inr, ap, ◌∙◌, String, Bool, true, false, not,
  List, [], ◌∷◌, map, ok, arith, All, ◌==◌,
}
use p2p_server.Storage.{MemberRecord, SessionRecord}
use p2p_server.Storage.Sqlite.{
  MemberRow, Json, IsJson, TextCodec, IsCodec, unix_epoch, int64_half, time_to_sql, time_from_sql,
  bool_to_int, marshal, unmarshal,
}
use p2p_server.Storage.Sqlite.Rows.{
  encode_member, scan_member, scan_all, scan_session, session_row, insert_by_index, order_by_index,
}
use p2p_server.Storage.Sqlite.Order.{insert_member_at, by_index}

-- A time that an int64 of nanoseconds holds: the zero time, or one from 1677 to 2262 that is not
-- the epoch itself.
abbrev pub IsTimed : ℕ → Type 0
IsTimed t =
    (t ≡ 0) ⊎ ((unix_epoch ≤ t + int64_half) × (t < unix_epoch + int64_half) × (t ≢ unix_epoch))

-- A time in the range of the columns reads back as itself, the zero time included, unless it is
-- the Unix epoch.
pub time_from_sql-time_to_sql : (t : ℕ) → IsTimed t → time_from_sql (time_to_sql t) ≡ t
unfolding time_from_sql time_to_sql
time_from_sql-time_to_sql t (inl z) = rw z refl
time_from_sql-time_to_sql t (inr (lo, hi, n)) = ground arith

-- The text of a column.
abbrev pub text_of : {A : Type 0} (c : TextCodec A) → IsCodec c → List A → String
text_of c v [] = "[]"
text_of c v (x ∷ xs) = v.text (x ∷ xs)

module _ {A : Type 0} (c : TextCodec A) (v : IsCodec c) where
  pub marshal_lem : (xs : List A) → marshal c xs ≡ ok (text_of c v xs)
  unfolding marshal
  marshal_lem [] = refl
  marshal_lem (x ∷ xs) = rw (v.writes (x ∷ xs) (λ e. cc e)) refl

  pub unmarshal-text_of : (xs : List A) → unmarshal c (text_of c v xs) ≡ ok xs
  unfolding unmarshal
  unmarshal-text_of [] = ground arith
  unmarshal-text_of (x ∷ xs) =
      let (r, s) = v.is_real (x ∷ xs) (λ e. cc e) in
      let back = v.reads (x ∷ xs) (λ e. cc e) in ground (arith, r, s, back)

-- A member that a row under a session's key holds whole.
pub record IsHeld (sid : String) (m : MemberRecord) : Type 0 where
  pub here : m.session_id ≡ sid
  pub narrow : m.index < 65536
  pub joined : IsTimed m.joined_at
  pub seen : IsTimed m.last_seen
  pub left : IsTimed m.leave_at

module _ (c : Json) (v : IsJson c) (sid : String) where
  -- The row of a member.
  unfoldable pub member_row : MemberRecord → MemberRow
  member_row m = record {
    session_id = sid;
    id = m.id;
    member_index = m.index;
    node_id = m.node_id;
    public_key = m.public_key;
    role = m.role;
    status = m.status;
    capabilities = text_of c.strings v.strings m.capabilities;
    candidates = text_of c.addresses v.addresses m.candidates;
    connection_id = m.connection_id;
    joined_at = time_to_sql m.joined_at;
    last_seen = time_to_sql m.last_seen;
    leave_at = time_to_sql m.leave_at;
  }

  pub encode_member_lem : (m : MemberRecord) → encode_member c sid m ≡ ok (member_row m)
  unfolding encode_member member_row
  encode_member_lem m =
      rw
        (
          marshal_lem c.strings v.strings m.capabilities,
          marshal_lem c.addresses v.addresses m.candidates,
        )
        refl

  scan_member-member_row :
      (m : MemberRecord) → IsHeld sid m → scan_member c sid (member_row m) ≡ ok m
  unfolding scan_member member_row
  scan_member-member_row m h =
      let i : m.index % 65536 ≡ m.index = omega (arith, h.narrow) in
      rw
        (
          unmarshal-text_of c.strings v.strings m.capabilities,
          unmarshal-text_of c.addresses v.addresses m.candidates,
          i,
          time_from_sql-time_to_sql m.joined_at h.joined,
          time_from_sql-time_to_sql m.last_seen h.seen,
          time_from_sql-time_to_sql m.leave_at h.left,
          ← h.here,
        )
        refl

  -- A member under the session's ID, with an index of 16 bits and times in the range of the columns,
  -- is encoded for its row without an error, and reads back from the row as it was, over a JSON
  -- encoding that keeps its law.
  pub scan_member-encode_member :
      (m : MemberRecord)
      → IsHeld sid m
      → (row : MemberRow) × (encode_member c sid m ≡ ok row) × (scan_member c sid row ≡ ok m)
  scan_member-encode_member m h = (member_row m, encode_member_lem m, scan_member-member_row m h)

  pub scan_all-map :
      (ms : List MemberRecord) → All (IsHeld sid) ms → scan_all c sid (map member_row ms) ≡ ok ms
  unfolding scan_all
  scan_all-map [] h = refl
  scan_all-map (m ∷ ms) h = rw (scan_member-member_row m h.0, scan_all-map ms h.1) refl

  insert_by_index-map :
      (m : MemberRecord) (ms : List MemberRecord)
      → insert_by_index (member_row m) (map member_row ms) ≡ map member_row (insert_member_at m ms)
  unfolding insert_by_index insert_member_at member_row
  insert_by_index-map m [] = refl
  insert_by_index-map m (x ∷ xs) = ground (arith, insert_by_index-map m xs)

  -- The rows in order are those of the members in order.
  pub order_by_index-map :
      (ms : List MemberRecord) → order_by_index (map member_row ms) ≡ map member_row (by_index ms)
  unfolding order_by_index by_index
  order_by_index-map [] = refl
  order_by_index-map (m ∷ ms) =
      ap (insert_by_index (member_row m)) (order_by_index-map ms)
      ∙ insert_by_index-map m (by_index ms)

-- A session whose own columns hold it whole.
pub record IsDated (rec : SessionRecord) : Type 0 where
  pub created : IsTimed rec.created_at
  pub expires : IsTimed rec.expires_at

bit : (b : Bool) → not (bool_to_int b == 0) ≡ b
bit true = refl
bit false = refl

-- A session written in a row reads back as it was, without its members.
pub scan_session-session_row :
    (rec : SessionRecord)
    → IsDated rec
    → scan_session rec.id (session_row rec) ≡ record rec { members = [] }
unfolding scan_session session_row
scan_session-session_row rec h =
    rw
      (
        bit rec.require_approval,
        bit rec.revoked,
        bit rec.closed,
        time_from_sql-time_to_sql rec.created_at h.created,
        time_from_sql-time_to_sql rec.expires_at h.expires,
      )
      refl
