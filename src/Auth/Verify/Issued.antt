-- ===== src/Auth/Verify/Issued.antt =====
-- A ticket that was issued is verified until it expires.
use p2p_server.Base.{
  ℕ, ◌+◌, ◌<◌, ◌≡◌, ◌∙◌, ap, ◌≢◌, List, [], ◌∷◌, ◌++◌, some, String, ok, err, arith, All,
  if◌then◌else◌, ltb,
}
use p2p_server.Base.Int.{pos}
use p2p_server.Base.Texts.{append, bytes_of, itoa}
use p2p_server.Base.Texts.Decimal.{bytes_of-append, IsDigit, itoa-IsDigit}
use p2p_server.Protocol.{Role}
use p2p_server.Auth.{Crypto}
use p2p_server.Auth.Ticket.{unix, role_text, ticket_body, issue}
use p2p_server.Auth.Verify.{ticket_expired, Ticket, cut, split, read_fields, verify, int64_min_size}
use p2p_server.Auth.Verify.Fields.{
  Lacks, cut-append, split-append, split-last, equal_bytes_refl, scan_int-itoa,
}

-- What base64.RawURLEncoding is documented to do: it decodes what it encodes, in an alphabet without
-- the dot.
pub record IsBase64 (c : Crypto) : Type 0 where
  pub decodes : (bs : List ℕ) → c.b64_decode (c.b64_encode bs) ≡ some bs
  pub no_dot : (bs : List ℕ) → Lacks 46 (c.b64_encode bs)

role_text-Lacks : (r : Role) → Lacks 31 (role_text r)
unfolding bytes_of
role_text-Lacks Role.owner = omega arith
role_text-Lacks Role.member = omega arith

digits-Lacks : (bs : List ℕ) → All IsDigit bs → All (λ b. b ≢ 31) bs
digits-Lacks [] h = tt
digits-Lacks (b ∷ bs) h = (ground (arith, h.0), digits-Lacks bs h.1)

-- The claims of the ticket.
abbrev pub claims : String → String → String → Role → ℕ → Ticket
claims sid mid conn role exp = record {
  session_id = bytes_of sid;
  member_id = bytes_of mid;
  connection_id = bytes_of conn;
  role = bytes_of (role_text role);
  expires_at = pos exp;
}

joined : (s t : String) → bytes_of (append s (append "\u{1f}" t)) ≡ bytes_of s ++ 31 ∷ bytes_of t
unfolding append bytes_of
joined s t = bytes_of-append s (append "\u{1f}" t)

body_bytes :
    (sid mid conn role exp : String)
    → bytes_of (ticket_body sid mid conn role exp)
      ≡ bytes_of sid
        ++ 31 ∷ (bytes_of mid ++ 31 ∷ (bytes_of conn ++ 31 ∷ (bytes_of role ++ 31 ∷ bytes_of exp)))
unfolding ticket_body
body_bytes sid mid conn role exp =
    let last = append role (append "\u{1f}" exp) in
    let third = append conn (append "\u{1f}" last) in
    let second = append mid (append "\u{1f}" third) in
    joined sid second
    ∙ ap (λ r. bytes_of sid ++ 31 ∷ r)
        (joined mid third
          ∙ ap (λ r. bytes_of mid ++ 31 ∷ r)
              (joined conn last ∙ ap (λ r. bytes_of conn ++ 31 ∷ r) (joined role exp)))

split-body :
    (sid mid conn : String) (role : Role) (exp : ℕ)
    → Lacks 31 sid
    → Lacks 31 mid
    → Lacks 31 conn
    → split 31 (bytes_of (ticket_body sid mid conn (role_text role) (itoa exp)))
      ≡ bytes_of sid
        ∷ bytes_of mid
        ∷ bytes_of conn
        ∷ bytes_of (role_text role)
        ∷ bytes_of (itoa exp)
        ∷ []
split-body sid mid conn role exp hs hm hc =
    let e = bytes_of (itoa exp) in
    let role_bytes = bytes_of (role_text role) in
    ap (split 31) (body_bytes sid mid conn (role_text role) (itoa exp))
    ∙ (split-append 31 (bytes_of sid)
          (bytes_of mid ++ 31 ∷ (bytes_of conn ++ 31 ∷ (role_bytes ++ 31 ∷ e))) hs
        ∙ ap (λ r. bytes_of sid ∷ r)
            (split-append 31 (bytes_of mid) (bytes_of conn ++ 31 ∷ (role_bytes ++ 31 ∷ e)) hm
              ∙ ap (λ r. bytes_of mid ∷ r)
                  (split-append 31 (bytes_of conn) (role_bytes ++ 31 ∷ e) hc
                    ∙ ap (λ r. bytes_of conn ∷ r)
                        (split-append 31 role_bytes e (role_text-Lacks role)
                          ∙ ap (λ r. role_bytes ∷ r)
                              (split-last 31 e (digits-Lacks e (itoa-IsDigit exp)))))))

-- A ticket for IDs without the separator, issued under a key and verified under the same key, with
-- an expiry that an int64 holds: `Verify` returns the session, the member, the connection, the role
-- and the expiry that it was issued for, up to the second of the expiry, and afterwards says that
-- it is expired.
pub verify-issue :
    (c : Crypto) (key : List ℕ) (now later : ℕ) (sid mid conn : String) (role : Role) (ttl : ℕ)
    → IsBase64 c
    → Lacks 31 sid
    → Lacks 31 mid
    → Lacks 31 conn
    → unix (now + ttl) < int64_min_size
    → verify c key later (issue c key now sid mid conn role ttl) ≡ (
        if ltb (unix (now + ttl)) (unix later)
        then err ticket_expired
        else ok (claims sid mid conn role (unix (now + ttl))))
unfolding verify issue read_fields
verify-issue c key now later sid mid conn role ttl v hs hm hc fits =
    let exp = unix (now + ttl) in
    let body = bytes_of (ticket_body sid mid conn (role_text role) (itoa exp)) in
    let mac = c.hmac key body in
    let apart : cut 46 (issue c key now sid mid conn role ttl)
        ≡ some (c.b64_encode body, c.b64_encode mac) =
      unfold append in cut-append (c.b64_encode body) (c.b64_encode mac) (v.no_dot body) in
    ground (
      arith,
      apart,
      v.decodes body,
      v.decodes mac,
      equal_bytes_refl mac,
      split-body sid mid conn role exp hs hm hc,
      scan_int-itoa exp fits,
    )
