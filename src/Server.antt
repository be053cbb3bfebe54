-- ===== src/Server.antt =====
-- internal/server/server.go: the limits per address, the mapping of errors, and the checks of a
-- request. A header that is not there is the empty text.
pub mod Window
use Prim.Native.Char.{code}
use p2p_server.Base.{
  ℕ, ◌+◌, Bool, true, false, not, ◌&&◌, ◌||◌, String, List, [], ◌∷◌, Option, none, some, Result,
  err, ltb, leb, ◌==◌, same, if◌then◌else◌, String_discrete,
}
use p2p_server.Base.Dict.{lookup, insert}
use p2p_server.Base.Int.{ℤ, pos, negsuc}
use p2p_server.Base.Texts.{trim_space, append}
use p2p_server.Auth.{Crypto}
use p2p_server.Auth.Verify.{Bytes, Ticket, TicketError, ticket_invalid, cut, verify}
use p2p_server.Session.{
  ServiceError, bad_params, unauthorized, session_not_found, session_expired, session_closed,
  session_full, join_limit_reached, token_revoked, member_not_found, not_owner, stale_connection,
  unsupported,
}

-- `bucket`; a limit that is not positive is 0.
pub record Bucket : Type 0 where
  pub counts : List (String × ℕ)
  pub reset : ℕ
  pub limit : ℕ
  pub window : ℕ

-- `newBucket`
unfoldable pub new_bucket : ℕ → ℕ → Bucket
new_bucket limit window = record { counts = []; reset = 0; limit = limit; window = window }

abbrev pub count_of : String → Bucket → ℕ
count_of key b = elim (lookup String_discrete key b.counts) [ none ↦ 0 | some n ↦ n ]

-- A new window, where the old one is over.
unfoldable pub renewed : ℕ → Bucket → Bucket
renewed now b = if ltb b.reset now then record b { counts = []; reset = now + b.window } else b

-- `allow`, at a time.
unfoldable pub allow : ℕ → String → Bucket → Bool × Bucket
allow now key b =
    let c = renewed now b in
    let n = count_of key c + 1 in
    if b.limit == 0
    then (true, b)
    else (leb n b.limit, record c { counts = insert String_discrete key n c.counts })

-- `sweep`
unfoldable pub sweep : ℕ → Bucket → Bucket
sweep now b = renewed now b

-- `mapServiceErr`: the HTTP status and the code of an error.
pub map_service_err : ServiceError → ℕ × String
map_service_err bad_params = (400, "bad_request")
map_service_err unauthorized = (401, "unauthorized")
map_service_err session_not_found = (404, "session_not_found")
map_service_err member_not_found = (404, "member_not_found")
map_service_err session_expired = (410, "session_expired")
map_service_err session_closed = (410, "session_closed")
map_service_err session_full = (409, "session_full")
map_service_err join_limit_reached = (409, "join_limit_reached")
map_service_err token_revoked = (403, "token_revoked")
map_service_err not_owner = (403, "not_owner")
map_service_err stale_connection = (409, "stale_connection")
map_service_err unsupported = (501, "unsupported")
map_service_err _ = (500, "server_error")

-- What the server reads of a request and of its configuration.
pub record Request : Type 0 where
  pub remote_addr : String
  pub origin : String
  pub forwarded_for : String
  pub connecting_ip : String
  pub authorization : String
  pub ticket_query : String

-- A set of origins, as a map to bools.
abbrev pub is_allowed : String → List (String × Bool) → Bool
is_allowed o m = elim (lookup String_discrete o m) [ none ↦ false | some b ↦ b ]

-- `strings.TrimRight(s, "/")`
pub trim_slashes : String → String
trim_slashes String.[] = ""
trim_slashes (String.◌∷◌ c s) =
    let rest = trim_slashes s in if same rest "" && code c == 47 then "" else String.◌∷◌ c rest

unfoldable pub check_origin : List (String × Bool) → Request → Bool
check_origin allowed r = elim allowed [
  | [] ↦ true
  | p ∷ ps ↦
      is_allowed "*" (p ∷ ps) || (same r.origin "" || is_allowed (trim_slashes r.origin) (p ∷ ps))
]

-- `host[:strings.LastIndexByte(host, ':')]`, where there is one.
pub before_last_colon : String → Option String
before_last_colon String.[] = none
before_last_colon (String.◌∷◌ c s) = elim (before_last_colon s) [
  | some t ↦ some (String.◌∷◌ c t)
  | none ↦ if code c == 58 then some "" else none
]

abbrev pub first_part : String → String
first_part s = elim (cut 44 s) [ none ↦ s | some (a, b) ↦ a ]

-- The address that the headers of a trusted proxy give, if any.
abbrev pub proxied : Request → String
proxied r =
    if not (same r.forwarded_for "")
    then trim_space (first_part r.forwarded_for)
    else if not (same r.connecting_ip "")
    then trim_space r.connecting_ip
    else r.remote_addr

-- `clientIP`
unfoldable pub client_ip : Bool → Request → String
client_ip trusts r =
    let host = if trusts then proxied r else r.remote_addr in
    elim (before_last_colon host) [ none ↦ host | some h ↦ h ]

-- `strings.TrimPrefix` of a text with the prefix.
pub after_prefix : String → String → Option String
after_prefix String.[] s = some s
after_prefix (String.◌∷◌ p ps) String.[] = none
after_prefix (String.◌∷◌ p ps) (String.◌∷◌ c s) =
    let rest = after_prefix ps s in if code p == code c then rest else none

-- `ticketFrom`, with the key and `time.Now()`.
unfoldable pub ticket_from : Crypto → Bytes → ℕ → Request → Result TicketError Ticket
ticket_from c key now r =
    let given =
      if not (same r.ticket_query "")
      then r.ticket_query
      else elim (after_prefix "Bearer " r.authorization) [ none ↦ "" | some t ↦ t ] in
    if same given "" then err ticket_invalid else verify c key now given
