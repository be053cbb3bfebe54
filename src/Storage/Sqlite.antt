-- ===== src/Storage/Sqlite.antt =====
-- internal/storage/sqlite.go: the rows of its two tables and what is written in their columns. The
-- SQL engine is not in the repository: a statement is what SQL says of it over the rows, with the
-- schema's primary keys, unique indices and foreign key. encoding/json is a parameter.
pub mod Rows
pub mod Entry
pub mod Calls
pub mod Order
pub mod Agree
pub mod Members
pub mod Writes
pub mod Codes
pub mod Sessions
pub mod Rejoin
pub mod Admit
pub mod Answers
pub mod Rotation
pub mod Creation
pub mod Refine
pub mod Columns
pub mod Canonical
use p2p_server.Base.{
  ℕ, ◌+◌, ◌-◌, ◌*◌, ◌%◌, String, Bool, true, false, ◌||◌, List, [], ◌∷◌, ◌≡◌, ◌≢◌, Option, none,
  some, Result, ok, err, or_fail, ltb, ◌==◌, same, if◌then◌else◌,
}
use p2p_server.Protocol.{Mode, MemberStatus, Role, Candidate}
use p2p_server.Storage.{StoreError, database_failed}

-- A row of `sessions`, without its key `id`. An INTEGER that holds an int64 of either sign is the
-- number of its 64 bits.
pub record SessionRow : Type 0 where
  pub mode : Mode
  pub join_code : String
  pub join_code_norm : String
  pub token_hash : String
  pub join_limit : ℕ
  pub joins_used : ℕ
  pub max_members : ℕ
  pub require_approval : ℕ
  pub owner_member_id : String
  pub revoked : ℕ
  pub closed : ℕ
  pub created_at : ℕ
  pub expires_at : ℕ
  pub idle_timeout : ℕ

-- A row of `members`.
pub record MemberRow : Type 0 where
  pub session_id : String
  pub id : String
  pub member_index : ℕ
  pub node_id : String
  pub public_key : String
  pub role : Role
  pub status : MemberStatus
  pub capabilities : String
  pub candidates : String
  pub connection_id : String
  pub joined_at : ℕ
  pub last_seen : ℕ
  pub leave_at : ℕ

-- `sessions` under its primary key, and `members` in the order of the rowids.
pub record Tables : Type 0 where
  pub sessions : List (String × SessionRow)
  pub members : List MemberRow

-- `NewSQLite` of a new database: the tables of the schema, empty.
unfoldable pub new_tables : Tables
new_tables = record { sessions = []; members = [] }

-- 1970-01-01 in nanoseconds after Go's zero time.
abbrev pub unix_epoch : ℕ
unix_epoch = 62135596800000000000

-- 2 ^ 64 and 2 ^ 63
abbrev pub int64_size : ℕ
int64_size = 18446744073709551616

abbrev pub int64_half : ℕ
int64_half = 9223372036854775808

-- `timeToSQL`: `UnixNano` is the time less the epoch, in 64 bits (four times 2 ^ 64 is more than
-- the epoch, and leaves the bits as they are).
unfoldable pub time_to_sql : ℕ → ℕ
time_to_sql t = if t == 0 then 0 else (t + (4 * int64_size - unix_epoch)) % int64_size

-- `timeFromSQL`
unfoldable pub time_from_sql : ℕ → ℕ
time_from_sql n =
    if n == 0 then 0 else if ltb n int64_half then unix_epoch + n else (unix_epoch + n) - int64_size

-- The order of two INTEGERs.
abbrev pub sql_lt : ℕ → ℕ → Bool
sql_lt a b = ltb ((a + int64_half) % int64_size) ((b + int64_half) % int64_size)

abbrev pub bool_to_int : Bool → ℕ
bool_to_int true = 1
bool_to_int false = 0

-- encoding/json on slices of one type: `write` is none on an error of `Marshal`, `read` on one of
-- `Unmarshal`.
pub record TextCodec (A : Type 0) : Type 0 where
  pub write : List A → Option String
  pub read : String → Option (List A)

-- A slice that is not empty is written as a text that reads back as it, and is not `[]`.
pub record IsCodec {A : Type 0} (c : TextCodec A) : Type 0 where
  pub text : List A → String
  pub writes : (xs : List A) → xs ≢ [] → c.write xs ≡ some (text xs)
  pub reads : (xs : List A) → xs ≢ [] → c.read (text xs) ≡ some xs
  pub is_real : (xs : List A) → xs ≢ [] → (text xs ≢ "") × (text xs ≢ "[]")

-- The codecs of the two columns.
pub record Json : Type 0 where
  pub strings : TextCodec String
  pub addresses : TextCodec Candidate

pub record IsJson (j : Json) : Type 0 where
  pub strings : IsCodec j.strings
  pub addresses : IsCodec j.addresses

-- `marshalStringList` and `marshalCandidates`
unfoldable pub marshal : {A : Type 0} → TextCodec A → List A → Result StoreError String
marshal c [] = ok "[]"
marshal c (x ∷ xs) = or_fail (c.write (x ∷ xs)) database_failed

-- `unmarshalStringList` and `unmarshalCandidates`
unfoldable pub unmarshal : {A : Type 0} → TextCodec A → String → Result StoreError (List A)
unmarshal c s = if same s "" || same s "[]" then ok [] else or_fail (c.read s) database_failed
