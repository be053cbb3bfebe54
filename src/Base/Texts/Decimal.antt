-- ===== src/Base/Texts/Decimal.antt =====
-- What `itoa` writes: digits, by which the number can be told.
use Prim.Native.Char.{Char, code}
use Prim.Native.Nat.{ℕ, zero, suc, ◌+◌, ◌-◌, ◌*◌, ◌/◌, ◌%◌, ◌≤◌, ◌<◌}
use Prim.Native.String.{String}
use mathlib.Core.Path.{◌≡◌, refl, sym, ap, ◌∙◌}
use native.Mathlib.Omega.{arith}
use p2p_server.Base.Tests.{ltb, Bool-cases}
use mathlib.Core.Logic.{inl, inr}
use p2p_server.Base.Texts.{char_at, append, itoa, itoa_from, bytes_of}
use p2p_server.Base.Lists.{All, All-append}
use mathlib.Core.List.{List, [], ◌∷◌, ◌++◌}

value : ℕ → String → ℕ
value acc String.[] = acc
value acc (String.◌∷◌ c s) = value (acc * 10 + (code c - 48)) s

value-snoc :
    (s : String) (acc : ℕ) (c : Char)
    → value acc (append s (String.◌∷◌ c "")) ≡ value acc s * 10 + (code c - 48)
unfolding value append
value-snoc String.[] acc c = refl
value-snoc (String.◌∷◌ d s) acc c = value-snoc s (acc * 10 + (code d - 48)) c

digit_value : (n : ℕ) → n < 10 → code (char_at "0123456789" n) - 48 ≡ n
digit_value zero h = refl
digit_value (suc zero) h = refl
digit_value (suc (suc zero)) h = refl
digit_value (suc (suc (suc zero))) h = refl
digit_value (suc (suc (suc (suc zero)))) h = refl
digit_value (suc (suc (suc (suc (suc zero))))) h = refl
digit_value (suc (suc (suc (suc (suc (suc zero)))))) h = refl
digit_value (suc (suc (suc (suc (suc (suc (suc zero))))))) h = refl
digit_value (suc (suc (suc (suc (suc (suc (suc (suc zero)))))))) h = refl
digit_value (suc (suc (suc (suc (suc (suc (suc (suc (suc zero))))))))) h = refl
digit_value (suc (suc (suc (suc (suc (suc (suc (suc (suc (suc n)))))))))) h = absurd (omega arith)

value-itoa_from : (fuel n : ℕ) → n < fuel → value 0 (itoa_from fuel n) ≡ n
unfolding itoa_from value
value-itoa_from zero n h = absurd (omega arith)
value-itoa_from (suc fuel) n h = elim (Bool-cases (ltb n 10)) [
  | inl small ↦ rw small (short n (ground arith))
  | inr big ↦ rw big (
      omega (
        arith,
        value-snoc (itoa_from fuel (n / 10)) 0 (char_at "0123456789" (n % 10)),
        digit_value (n % 10) (omega arith),
        value-itoa_from fuel (n / 10) (ground arith),
      ))
]
  where
    short : (k : ℕ) → k < 10 → value 0 (String.◌∷◌ (char_at "0123456789" k) "") ≡ k
    short k lt = omega (arith, digit_value k lt)

pub itoa_injective : (m n : ℕ) → itoa m ≡ itoa n → m ≡ n
unfolding itoa
itoa_injective m n e =
    sym (value-itoa_from (suc m) m (omega arith))
    ∙ (ap (value 0) e ∙ value-itoa_from (suc n) n (omega arith))

string_tail : String → String
string_tail String.[] = ""
string_tail (String.◌∷◌ c s) = s

pub append_injective : (s t u : String) → append s t ≡ append s u → t ≡ u
unfolding append string_tail
append_injective String.[] t u e = e
append_injective (String.◌∷◌ c s) t u e = append_injective s t u (ap string_tail e)

-- The number that bytes of digits stand for, after `acc`.
abbrev pub value_of : ℕ → List ℕ → ℕ
value_of acc [] = acc
value_of acc (b ∷ bs) = value_of (acc * 10 + (b - 48)) bs

value-bytes_of : (acc : ℕ) (s : String) → value acc s ≡ value_of acc (bytes_of s)
unfolding value bytes_of
value-bytes_of acc String.[] = refl
value-bytes_of acc (String.◌∷◌ c s) = value-bytes_of (acc * 10 + (code c - 48)) s

pub value_of-itoa : (n : ℕ) → value_of 0 (bytes_of (itoa n)) ≡ n
unfolding itoa
value_of-itoa n =
    sym (value-bytes_of 0 (itoa_from (suc n) n)) ∙ value-itoa_from (suc n) n (omega arith)

pub bytes_of-append : (s t : String) → bytes_of (append s t) ≡ bytes_of s ++ bytes_of t
unfolding append bytes_of
bytes_of-append String.[] t = refl
bytes_of-append (String.◌∷◌ c s) t = ap (λ bs. code c ∷ bs) (bytes_of-append s t)

abbrev pub IsDigit : ℕ → Type 0
IsDigit b = (48 ≤ b) × (b ≤ 57)

char_at-IsDigit : (n : ℕ) → n < 10 → IsDigit (code (char_at "0123456789" n))
char_at-IsDigit zero h = omega arith
char_at-IsDigit (suc zero) h = omega arith
char_at-IsDigit (suc (suc zero)) h = omega arith
char_at-IsDigit (suc (suc (suc zero))) h = omega arith
char_at-IsDigit (suc (suc (suc (suc zero)))) h = omega arith
char_at-IsDigit (suc (suc (suc (suc (suc zero))))) h = omega arith
char_at-IsDigit (suc (suc (suc (suc (suc (suc zero)))))) h = omega arith
char_at-IsDigit (suc (suc (suc (suc (suc (suc (suc zero))))))) h = omega arith
char_at-IsDigit (suc (suc (suc (suc (suc (suc (suc (suc zero)))))))) h = omega arith
char_at-IsDigit (suc (suc (suc (suc (suc (suc (suc (suc (suc zero))))))))) h = omega arith
char_at-IsDigit (suc (suc (suc (suc (suc (suc (suc (suc (suc (suc n)))))))))) h =
    absurd (omega arith)

itoa_from-IsDigit : (fuel n : ℕ) → All IsDigit (bytes_of (itoa_from fuel n))
unfolding itoa_from bytes_of
itoa_from-IsDigit zero n = tt
itoa_from-IsDigit (suc fuel) n = elim (Bool-cases (ltb n 10)) [
  | inl small ↦ rw small (char_at-IsDigit n (ground arith), tt)
  | inr big ↦
      rw
        (
          big,
          bytes_of-append (itoa_from fuel (n / 10)) (String.◌∷◌ (char_at "0123456789" (n % 10)) ""),
        )
        (All-append IsDigit (bytes_of (itoa_from fuel (n / 10))) _ (itoa_from-IsDigit fuel (n / 10))
          (char_at-IsDigit (n % 10) (omega arith), tt))
]

pub itoa-IsDigit : (n : ℕ) → All IsDigit (bytes_of (itoa n))
unfolding itoa
itoa-IsDigit n = itoa_from-IsDigit (suc n) n

snoc-ne-nil : (bs : List ℕ) (b : ℕ) → (c : ℕ) × (cs : List ℕ) × (bs ++ b ∷ [] ≡ c ∷ cs)
snoc-ne-nil [] b = (b, [], refl)
snoc-ne-nil (c ∷ cs) b = (c, cs ++ b ∷ [], refl)

-- At least one digit.
pub itoa-cons : (n : ℕ) → (b : ℕ) × (bs : List ℕ) × (bytes_of (itoa n) ≡ b ∷ bs)
unfolding itoa itoa_from bytes_of
itoa-cons n = elim (Bool-cases (ltb n 10)) [
  | inl small ↦ rw small (code (char_at "0123456789" n), [], refl)
  | inr big ↦
      let d = char_at "0123456789" (n % 10) in
      let (c, cs, e) = snoc-ne-nil (bytes_of (itoa_from n (n / 10))) (code d) in
      rw big (c, cs, bytes_of-append (itoa_from n (n / 10)) (String.◌∷◌ d "") ∙ e)
]
