-- ===== src/Auth/Verify.antt =====
-- internal/auth/ticket.go: `Verify`. The claims of a ticket are strings of Go, which are bytes.
pub mod Fields
pub mod Issued
use p2p_server.Base.{
  ℕ, zero, suc, ◌+◌, ◌-◌, ◌*◌, Bool, true, false, not, ◌&&◌, ◌||◌, String, List, [], ◌∷◌, Option,
  none, some, Result, ok, err, ◌>>=◌, ◌>>◌, reject_if, or_fail, ltb, leb, ◌==◌, if◌then◌else◌, same,
  length,
}
use Prim.Native.Char.{code}
use p2p_server.Base.Int.{ℤ, pos, negsuc}
use p2p_server.Base.Texts.{bytes_of, trim_space}
use p2p_server.Auth.{Crypto}
use p2p_server.Auth.Ticket.{unix}
use p2p_server.Auth.Token.{decode_b64u, read_bytes}
use p2p_server.Storage.{Env}

-- `Err*` of ticket.go.
pub data TicketError : Type 0 where
  ticket_invalid ticket_expired : TicketError

abbrev pub Bytes : Type 0
Bytes = List ℕ

pub record Ticket : Type 0 where
  pub session_id : Bytes
  pub member_id : Bytes
  pub connection_id : Bytes
  pub role : Bytes
  pub expires_at : ℤ

-- `strings.SplitN(s, x, 2)` for a character, where there are two parts.
unfoldable pub cut : ℕ → String → Option (String × String)
cut x String.[] = none
cut x (String.◌∷◌ c s) =
    if code c == x
    then some ("", s)
    else elim (cut x s) [ none ↦ none | some (a, b) ↦ some (String.◌∷◌ c a, b) ]

-- The bytes in front of the first part.
abbrev pub prepend : ℕ → List Bytes → List Bytes
prepend b [] = (b ∷ []) ∷ []
prepend b (p ∷ ps) = (b ∷ p) ∷ ps

-- `strings.Split` by one byte.
unfoldable pub split : ℕ → Bytes → List Bytes
split x [] = [] ∷ []
split x (b ∷ bs) = let rest = split x bs in if b == x then [] ∷ rest else prepend b rest

-- `hmac.Equal`
unfoldable pub equal_bytes : Bytes → Bytes → Bool
equal_bytes [] [] = true
equal_bytes (a ∷ as') (b ∷ bs) = a == b && equal_bytes as' bs
equal_bytes _ _ = false

abbrev pub is_digit : ℕ → Bool
is_digit b = leb 48 b && leb b 57

-- The digits at the front as a number, after one that is `acc`.
unfoldable pub digits_from : ℕ → Bytes → ℕ
digits_from acc [] = acc
digits_from acc (b ∷ bs) =
    let more = digits_from (acc * 10 + (b - 48)) bs in if is_digit b then more else acc

-- A number of at least one digit.
unfoldable pub number : Bytes → Option ℕ
number [] = none
number (b ∷ bs) = if is_digit b then some (digits_from 0 (b ∷ bs)) else none

-- An int64 by its sign and size.
abbrev pub int64_min_size : ℕ
int64_min_size = 9223372036854775808

unfoldable pub positive : Option ℕ → Option ℤ
positive none = none
positive (some n) = if ltb n int64_min_size then some (pos n) else none

abbrev pub negate : ℕ → ℤ
negate zero = pos 0
negate (suc n) = negsuc n

unfoldable pub negative : Option ℕ → Option ℤ
negative none = none
negative (some n) = if leb n int64_min_size then some (negate n) else none

-- The blanks that `fmt` skips on a line.
abbrev pub is_blank : ℕ → Bool
is_blank b = b == 32 || (b == 9 || (leb 11 b && leb b 13))

unfoldable pub skip_blanks : Bytes → Bytes
skip_blanks [] = []
skip_blanks (b ∷ bs) = let rest = skip_blanks bs in if is_blank b then rest else b ∷ bs

unfoldable pub signed : Bytes → Option ℤ
signed [] = none
signed (b ∷ bs) =
    if b == 45
    then negative (number bs)
    else if b == 43
    then positive (number bs)
    else positive (number (b ∷ bs))

-- `fmt.Sscanf(s, "%d", &exp)`, which leaves what follows the digits.
unfoldable pub scan_int : Bytes → Option ℤ
scan_int bs = signed (skip_blanks bs)

-- `now > exp`
abbrev pub is_past : ℤ → ℕ → Bool
is_past (pos n) now = ltb n now
is_past (negsuc n) now = true

-- The checks on the fields.
unfoldable pub read_fields : ℕ → List Bytes → Result TicketError Ticket
read_fields now (sid ∷ (mid ∷ (conn ∷ (role ∷ (e ∷ []))))) = do
  exp ← or_fail (scan_int e) ticket_invalid
  reject_if (is_past exp (unix now)) ticket_expired
  ok record {
    session_id = sid;
    member_id = mid;
    connection_id = conn;
    role = role;
    expires_at = exp;
  }
read_fields now _ = err ticket_invalid

-- `Verify`, with the key and `time.Now()`. The separators are `.` and byte 31.
unfoldable pub verify : Crypto → Bytes → ℕ → String → Result TicketError Ticket
verify c key now ticket = do
  (body, sig) ← or_fail (cut 46 ticket) ticket_invalid
  body_raw ← or_fail (c.b64_decode body) ticket_invalid
  sig_raw ← or_fail (c.b64_decode sig) ticket_invalid
  reject_if (not (equal_bytes sig_raw (c.hmac key body_raw))) ticket_invalid
  read_fields now (split 31 body_raw)

abbrev ticket_key_bytes : ℕ
ticket_key_bytes = 32

-- `NewTicketKey`, with what `rand.Read` gives.
pub new_ticket_key : Env → Option Bytes
new_ticket_key env =
    if env.rand_fails then none else some (read_bytes (env.random 0) ticket_key_bytes 0)

-- `TicketKeyFromString`
pub ticket_key_from_string : Crypto → String → Option Bytes
ticket_key_from_string c s = if same s "" then none else elim (decode_b64u c (trim_space s)) [
  | none ↦ none
  | some raw ↦ if length raw == ticket_key_bytes then some raw else none
]

-- `String`
pub key_text : Crypto → Bytes → String
key_text c key = c.b64_encode key
