-- ===== src/Session.antt =====
-- internal/session: the service that keeps to the policy of sessions, over any store. Its parts are
-- the modules below; here are its errors and its configuration.
pub mod Create
pub mod Join
pub mod Query
pub mod Change
pub mod Prune
pub mod Approval
pub mod Limits
pub mod Authorization
pub mod Idle
pub mod Sweep
pub mod Elsewhere
pub mod Pass
use p2p_server.Base.{ℕ, ◌*◌, String, List, Result}
use p2p_server.Storage.{
  StoreError, not_found, expired, revoked, closed, full, join_limit, member_missing, member_exists,
  conflict, context_done,
}

-- The `Err*` of errors.go. `store_failed` is an error of the store that passes through as it is.
pub data ServiceError : Type 0 where
  bad_params unauthorized session_not_found session_expired session_closed session_full :
      ServiceError
  join_limit_reached token_revoked member_not_found not_owner stale_connection : ServiceError
  unsupported rand_failed : ServiceError
  store_failed : StoreError → ServiceError

-- `mapStoreErr`
unfoldable pub map_store_err : StoreError → ServiceError
map_store_err not_found = session_not_found
map_store_err expired = session_expired
map_store_err closed = session_closed
map_store_err revoked = token_revoked
map_store_err full = session_full
map_store_err join_limit = join_limit_reached
map_store_err member_missing = member_not_found
map_store_err e = store_failed e

-- Durations are nanoseconds.
abbrev pub second : ℕ
second = 1000000000

abbrev pub default_pair_members : ℕ
default_pair_members = 2

abbrev pub default_group_members : ℕ
default_group_members = 10

abbrev pub max_group_members : ℕ
max_group_members = 1000

abbrev pub max_ttl : ℕ
max_ttl = 7 * 24 * 3600 * second

-- The largest `time.Duration`, at which `Time.Sub` saturates.
abbrev pub max_duration : ℕ
max_duration = 9223372036854775807

pub record Config : Type 0 where
  pub ticket_ttl : ℕ
  pub member_grace : ℕ
  pub default_ttl : ℕ
  pub max_sessions : ℕ

-- The configuration, the tickets' key, and what `s.now()` gives on the call.
pub record Service : Type 0 where
  pub config : Config
  pub ticket_key : List ℕ
  pub now : ℕ
