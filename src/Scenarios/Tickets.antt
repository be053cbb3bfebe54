-- ===== src/Scenarios/Tickets.antt =====
-- An example of the ticket's theorem, with an encoding of bytes in ones and commas.
use Prim.Native.Char.{code}
use p2p_server.Base.{
  ℕ, zero, suc, ◌+◌, ◌≡◌, refl, ap, ◌∙◌, List, [], ◌∷◌, some, String, ok, err, arith, if◌then◌else◌,
  ltb, ◌==◌,
}
use p2p_server.Base.Texts.{bytes_of}
use p2p_server.Protocol.{Role}
use p2p_server.Auth.{Crypto}
use p2p_server.Auth.Ticket.{issue, unix}
use p2p_server.Auth.Verify.{verify, ticket_expired}
use p2p_server.Auth.Verify.Fields.{Lacks}
use p2p_server.Auth.Verify.Issued.{IsBase64, claims, verify-issue}
use p2p_server.Scenarios.{lenient}

ones : ℕ → String → String
ones zero rest = String.◌∷◌ "," rest
ones (suc n) rest = String.◌∷◌ "1" (ones n rest)

write_ones : List ℕ → String
unfolding ones
write_ones [] = ""
write_ones (n ∷ ns) = ones n (write_ones ns)

bump : List ℕ → List ℕ
bump [] = []
bump (n ∷ ns) = suc n ∷ ns

read_ones : String → List ℕ
unfolding bump
read_ones String.[] = []
read_ones (String.◌∷◌ c s) =
    let rest = read_ones s in if code c == b',' then 0 ∷ rest else bump rest

read_ones-ones : (n : ℕ) (rest : String) → read_ones (ones n rest) ≡ n ∷ read_ones rest
unfolding ones read_ones bump
read_ones-ones zero rest = refl
read_ones-ones (suc n) rest = ap bump (read_ones-ones n rest)

read_ones-write_ones : (ns : List ℕ) → read_ones (write_ones ns) ≡ ns
unfolding write_ones read_ones
read_ones-write_ones [] = refl
read_ones-write_ones (n ∷ ns) =
    read_ones-ones n (write_ones ns) ∙ ap (λ rest. n ∷ rest) (read_ones-write_ones ns)

ones-Lacks : (n : ℕ) (rest : String) → Lacks 46 rest → Lacks 46 (ones n rest)
unfolding ones bytes_of
ones-Lacks zero rest h = (λ e. omega (arith, e), h)
ones-Lacks (suc n) rest h = (λ e. omega (arith, e), ones-Lacks n rest h)

write_ones-Lacks : (ns : List ℕ) → Lacks 46 (write_ones ns)
unfolding write_ones bytes_of
write_ones-Lacks [] = tt
write_ones-Lacks (n ∷ ns) = ones-Lacks n (write_ones ns) (write_ones-Lacks ns)

-- A keyed hash that is the message after the key's length.
one_crypto : Crypto
one_crypto = record lenient {
  hmac = λ key bs. 32 ∷ bs;
  b64_encode = write_ones;
  b64_decode = λ s. some (read_ones s);
}

one_crypto-IsBase64 : IsBase64 one_crypto
unfolding one_crypto
one_crypto-IsBase64 = record {
  decodes = λ bs. ap some (read_ones-write_ones bs);
  no_dot = write_ones-Lacks;
}

abbrev now : ℕ
now = 63900000000000000000

verify-issue_example :
    verify one_crypto [] (now + 5) (issue one_crypto [] now "sess_1" "mbr_1" "con_1" Role.owner 600)
    ≡ (if ltb (unix (now + 600)) (unix (now + 5))
        then err ticket_expired
        else ok (claims "sess_1" "mbr_1" "con_1" Role.owner (unix (now + 600))))
unfolding unix bytes_of
verify-issue_example =
    verify-issue one_crypto [] now (now + 5) "sess_1" "mbr_1" "con_1" Role.owner 600
      one_crypto-IsBase64 (omega arith) (omega arith) (omega arith) (omega arith)
