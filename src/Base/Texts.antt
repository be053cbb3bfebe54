-- ===== src/Base/Texts.antt =====
-- The functions of Go's `strings` and `strconv` that the program calls, over texts of ASCII
-- characters: other characters have no upper case here and are no space.
pub mod Decimal
use Prim.Native.Char.{Char, code}
use Prim.Native.Nat.{ℕ, zero, suc, ◌-◌, ◌/◌, ◌%◌}
use Prim.Native.String.{String}
use mathlib.Core.Path.{◌≡◌, refl}
use mathlib.Core.Bool.{Bool, ◌&&◌, ◌||◌}
use mathlib.Core.List.{List, [], ◌∷◌}
use p2p_server.Base.Tests.{ltb, leb, ◌==◌, if◌then◌else◌}

-- `"…"[i]`, where `i` is in range.
abbrev pub char_at : String → ℕ → Char
char_at String.[] i = "?"
char_at (String.◌∷◌ c s) zero = c
char_at (String.◌∷◌ c s) (suc i) = char_at s i

unfoldable pub append : String → String → String
append String.[] t = t
append (String.◌∷◌ c s) t = String.◌∷◌ c (append s t)

-- The bytes of a text of ASCII characters.
unfoldable pub bytes_of : String → List ℕ
bytes_of String.[] = []
bytes_of (String.◌∷◌ c s) = code c ∷ bytes_of s

to_upper_char : Char → Char
to_upper_char c =
    if leb b'a' (code c) && leb (code c) b'z'
    then char_at "ABCDEFGHIJKLMNOPQRSTUVWXYZ" (code c - b'a')
    else c

to_lower_char : Char → Char
to_lower_char c =
    if leb b'A' (code c) && leb (code c) b'Z'
    then char_at "abcdefghijklmnopqrstuvwxyz" (code c - b'A')
    else c

unfoldable pub to_upper : String → String
unfolding to_upper_char
to_upper String.[] = ""
to_upper (String.◌∷◌ c s) = String.◌∷◌ (to_upper_char c) (to_upper s)

unfoldable pub to_lower : String → String
unfolding to_lower_char
to_lower String.[] = ""
to_lower (String.◌∷◌ c s) = String.◌∷◌ (to_lower_char c) (to_lower s)

-- `strings.ReplaceAll(s, c, "")` for a character `c`.
unfoldable pub remove_char : Char → String → String
remove_char x String.[] = ""
remove_char x (String.◌∷◌ c s) =
    let rest = remove_char x s in if code c == code x then rest else String.◌∷◌ c rest

is_space : Char → Bool
is_space c = code c == 32 || (leb 9 (code c) && leb (code c) 13)

trim_left : String → String
unfolding is_space
trim_left String.[] = ""
trim_left (String.◌∷◌ c s) = let rest = trim_left s in if is_space c then rest else String.◌∷◌ c s

-- A character in front of a text that is trimmed on the right.
keep_char : Char → String → String
unfolding is_space
keep_char x String.[] = if is_space x then "" else String.◌∷◌ x ""
keep_char x (String.◌∷◌ d t) = String.◌∷◌ x (String.◌∷◌ d t)

trim_right : String → String
unfolding keep_char
trim_right String.[] = ""
trim_right (String.◌∷◌ c s) = keep_char c (trim_right s)

unfoldable pub trim_space : String → String
unfolding trim_left trim_right
trim_space s = trim_right (trim_left s)

itoa_from : ℕ → ℕ → String
itoa_from zero n = ""
itoa_from (suc fuel) n =
    let rest = append (itoa_from fuel (n / 10)) (String.◌∷◌ (char_at "0123456789" (n % 10)) "") in
    if ltb n 10 then String.◌∷◌ (char_at "0123456789" n) "" else rest

-- `strconv.Itoa`, with more rounds than `n` has digits.
unfoldable pub itoa : ℕ → String
unfolding itoa_from append
itoa n = itoa_from (suc n) n

itoa_test : itoa 507 ≡ "507"
unfolding itoa
itoa_test = refl

-- `hex.EncodeToString`
unfoldable pub hex : List ℕ → String
hex [] = ""
hex (b ∷ bs) =
    String.◌∷◌ (char_at "0123456789abcdef" (b / 16))
      (String.◌∷◌ (char_at "0123456789abcdef" (b % 16)) (hex bs))

normal_test : to_upper (trim_space " p2p-a b ") ≡ "P2P-A B"
unfolding to_upper trim_space
normal_test = refl
