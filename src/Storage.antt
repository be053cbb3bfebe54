-- ===== src/Storage.antt =====
-- internal/storage/store.go: the records, the errors and the interface of a session store.
-- A `time.Time` is a number of nanoseconds, and 0 is Go's zero time.
pub mod Index
pub mod Ids
pub mod Admission
pub mod Listing
pub mod Memory
pub mod Invariant
pub mod Capacity
pub mod Lookup
pub mod Runs
pub mod Sqlite
use p2p_server.Base.{
  ℕ, zero, suc, ◌+◌, ◌%◌, String, Bool, true, false, not, ◌&&◌, ◌||◌, Option, none, some, List,
  Result, ltb, leb, ◌==◌, same, if◌then◌else◌,
}
use p2p_server.Base.Search.{find, count, any}
use p2p_server.Protocol.{Mode, MemberStatus, Role, Candidate, is_active}

-- Why a context is done (`ctx.Err()`).
pub data Cause : Type 0 where
  canceled deadline_exceeded : Cause

-- The `Err*` of store.go, the context's error, and an error of the database driver or of a JSON
-- text in the database.
pub data StoreError : Type 0 where
  not_found expired revoked closed full join_limit member_exists member_missing conflict :
      StoreError
  database_failed : StoreError
  context_done : Cause → StoreError

-- What one call draws from its surroundings: the state of its context, `time.Now()`, whether
-- `crypto/rand` fails, and the bytes of each `rand.Read` that it makes (those of the clock, where a
-- function falls back on it). `db_refuses`: the database driver fails the call before it has done
-- anything; `commit_fails`: it fails a transaction afterwards, which is rolled back.
pub record Env : Type 0 where
  pub ctx_err : Option Cause
  pub wall_clock : ℕ
  pub rand_fails : Bool
  pub random : ℕ → ℕ → ℕ
  pub db_refuses : Bool
  pub commit_fails : Bool

pub record MemberRecord : Type 0 where
  pub id : String
  pub session_id : String
  pub index : ℕ
  pub node_id : String
  pub public_key : String
  pub role : Role
  pub status : MemberStatus
  pub capabilities : List String
  pub candidates : List Candidate
  pub connection_id : String
  pub joined_at : ℕ
  pub last_seen : ℕ
  pub leave_at : ℕ

unfoldable pub is_online : MemberRecord → Bool
is_online m = not (same m.connection_id "")

pub record SessionRecord : Type 0 where
  pub id : String
  pub mode : Mode
  pub join_code : String
  pub token_hash : String
  pub join_limit : ℕ
  pub joins_used : ℕ
  pub max_members : ℕ
  pub require_approval : Bool
  pub owner_member_id : String
  pub revoked : Bool
  pub closed : Bool
  pub created_at : ℕ
  pub expires_at : ℕ
  pub idle_timeout : ℕ
  pub members : List MemberRecord

-- `Expired`
unfoldable pub is_expired : SessionRecord → ℕ → Bool
is_expired s now = not (s.expires_at == 0) && ltb s.expires_at now

-- `ActiveMembers`
abbrev pub active_members : SessionRecord → ℕ
active_members s = count (λ m. is_active m.status) s.members

abbrev pub has_id : String → MemberRecord → Bool
has_id id m = same m.id id

abbrev pub has_node_id : String → MemberRecord → Bool
has_node_id node m = same m.node_id node

abbrev pub member_by_id : SessionRecord → String → Option MemberRecord
member_by_id s id = find (has_id id) s.members

abbrev pub member_by_node_id : SessionRecord → String → Option MemberRecord
member_by_node_id s node = find (has_node_id node) s.members

abbrev pub member_by_index : SessionRecord → ℕ → Option MemberRecord
member_by_index s idx = find (λ m. m.index == idx) s.members

-- `used[i]` of `freeIndex`
abbrev pub is_used : List MemberRecord → ℕ → Bool
is_used ms i = any (λ m. m.index == i) ms

-- The loop of `freeIndex` over a uint16, with the rounds that are left.
unfoldable pub free_index_from : List MemberRecord → ℕ → ℕ → ℕ
free_index_from ms zero i = 0
free_index_from ms (suc rounds) i =
    let next = free_index_from ms rounds ((i + 1) % 65536) in
    if i == 0 then 0 else if is_used ms i then next else i

-- The index comes back to 0 after 65535 rounds, which ends the loop.
unfoldable pub free_index : SessionRecord → ℕ
free_index s = free_index_from s.members 65536 1

pub record JoinRequest : Type 0 where
  pub node_id : String
  pub public_key : String
  pub connection_id : String
  pub capabilities : List String
  pub candidates : List Candidate
  pub now : ℕ

pub record JoinOutcome : Type 0 where
  pub session : SessionRecord
  pub member : MemberRecord
  pub rejoined : Bool
  pub is_owner : Bool

pub record ListFilter : Type 0 where
  pub expired_before : ℕ
  pub closed_only : Bool
  pub limit : ℕ

-- The interface `Store`. A call returns its result with the new state, or an error, on which the
-- state stays as it was.
pub record Store : Type 1 where
  pub State : Type 0
  pub create : Env → SessionRecord → State → Result StoreError (SessionRecord × State)
  pub get : Env → String → State → Result StoreError SessionRecord
  pub get_by_join_code : Env → String → State → Result StoreError SessionRecord
  pub join : Env → String → JoinRequest → State → Result StoreError (JoinOutcome × State)
  pub update_member : Env → String → MemberRecord → State → Result StoreError State
  pub remove_member : Env → String → String → State → Result StoreError State
  pub mark_offline : Env → String → String → String → ℕ → State → Result StoreError State
  pub revoke : Env → String → ℕ → State → Result StoreError State
  pub rotate_token : Env → String → String → String → ℕ → State → Result StoreError State
  pub close : Env → String → State → Result StoreError State
  pub delete : Env → String → State → Result StoreError State
  pub list : Env → ListFilter → State → Result StoreError (List SessionRecord)
