-- ===== src/Auth/Verify/Fields.antt =====
-- The fields of a ticket are told apart and read back.
use p2p_server.Base.{
  ℕ, ◌+◌, ◌-◌, ◌*◌, ◌<◌, ◌≡◌, refl, sym, ◌∙◌, ap, ◌≢◌, true, [], ◌∷◌, ◌++◌, some, String, arith,
  All,
}
use mathlib.Core.Path.{subst}
use p2p_server.Base.Int.{pos}
use p2p_server.Base.Texts.{append, bytes_of, itoa}
use p2p_server.Base.Texts.Decimal.{value_of, value_of-itoa, IsDigit, itoa-IsDigit, itoa-cons}
use p2p_server.Auth.Verify.{
  Bytes, cut, split, equal_bytes, digits_from, number, positive, signed, skip_blanks, scan_int,
  int64_min_size,
}

-- The text has no such byte.
abbrev pub Lacks : ℕ → String → Type 0
Lacks x s = All (λ b. b ≢ x) (bytes_of s)

pub cut-append : (s t : String) → Lacks 46 s → cut 46 (append s (String.◌∷◌ "." t)) ≡ some (s, t)
unfolding cut append bytes_of
cut-append String.[] t h = refl
cut-append (String.◌∷◌ c s) t h = ground (arith, cut-append s t h.1, h.0)

pub split-append : (x : ℕ) (a r : Bytes) → All (λ b. b ≢ x) a → split x (a ++ x ∷ r) ≡ a ∷ split x r
unfolding split
split-append x [] r h = ground arith
split-append x (b ∷ a) r h = ground (arith, split-append x a r h.1, h.0)

pub split-last : (x : ℕ) (a : Bytes) → All (λ b. b ≢ x) a → split x a ≡ a ∷ []
unfolding split
split-last x [] h = refl
split-last x (b ∷ a) h = ground (arith, split-last x a h.1, h.0)

pub equal_bytes_refl : (a : Bytes) → equal_bytes a a ≡ true
unfolding equal_bytes
equal_bytes_refl [] = refl
equal_bytes_refl (b ∷ a) = ground (arith, equal_bytes_refl a)

digits_from-value_of :
    (acc : ℕ) (bs : Bytes) → All IsDigit bs → digits_from acc bs ≡ value_of acc bs
unfolding digits_from
digits_from-value_of acc [] h = refl
digits_from-value_of acc (b ∷ bs) h =
    ground (arith, digits_from-value_of (acc * 10 + (b - 48)) bs h.1, h.0)

scan_int-digits :
    (b : ℕ) (bs : Bytes) (k : ℕ)
    → All IsDigit (b ∷ bs)
    → value_of 0 (b ∷ bs) ≡ k
    → k < int64_min_size
    → scan_int (b ∷ bs) ≡ some (pos k)
unfolding scan_int skip_blanks signed number positive
scan_int-digits b bs k all worth l =
    let read : digits_from 0 (b ∷ bs) ≡ k = digits_from-value_of 0 (b ∷ bs) all ∙ worth in
    ground (arith, all.0, read, l)

-- A number that an int64 holds is read back from its digits.
pub scan_int-itoa : (n : ℕ) → n < int64_min_size → scan_int (bytes_of (itoa n)) ≡ some (pos n)
scan_int-itoa n h =
    let (b, bs, e) = itoa-cons n in
    ap scan_int e
    ∙ scan_int-digits b bs n (subst (All IsDigit) e (itoa-IsDigit n))
        (ap (value_of 0) (sym e) ∙ value_of-itoa n) h
