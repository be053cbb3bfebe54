-- ===== src/Auth/Ticket.antt =====
-- internal/auth/ticket.go: the ticket of a connection.
use p2p_server.Base.{ℕ, ◌+◌, ◌-◌, ◌/◌, String, List}
use p2p_server.Base.Texts.{append, bytes_of, itoa}
use p2p_server.Protocol.{Role}
use p2p_server.Storage.Ids.{random_token}
use p2p_server.Auth.{Crypto}

-- Seconds from Go's zero time to 1970.
abbrev unix_epoch : ℕ
unix_epoch = 62135596800

-- `Time.Unix`, of a time that is not before 1970.
unfoldable pub unix : ℕ → ℕ
unix t = t / 1000000000 - unix_epoch

abbrev pub role_text : Role → String
role_text Role.owner = "owner"
role_text Role.member = "member"

abbrev separator : String
separator = "\u{1f}"

-- `strings.Join(…, "\x1f")` of the five fields.
unfoldable pub ticket_body : String → String → String → String → String → String
ticket_body sid mid conn role exp = append sid (
    append separator (
      append mid
        (append separator (append conn (append separator (append role (append separator exp)))))))

module _ (c : Crypto) where
  -- `Issue`, with the key, and `time.Now()` in front of the fields.
  unfoldable pub issue : List ℕ → ℕ → String → String → String → Role → ℕ → String
  issue key now sid mid conn role ttl =
      let body = ticket_body sid mid conn (role_text role) (itoa (unix (now + ttl))) in
      append (c.b64_encode (bytes_of body)) (append "." (c.b64_encode (c.hmac key (bytes_of body))))

-- `RandomID`
unfoldable pub random_id : String → (ℕ → ℕ) → ℕ → String
random_id prefix bytes n = append prefix (random_token bytes n)
