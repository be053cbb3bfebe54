-- ===== src/Scenarios/Columns.antt =====
-- An encoding of slices in texts, to run the SQLite store with: each character of a string is
-- marked by `+`, and each string ends with `;`.
use Prim.Native.Char.{Char, code}
use p2p_server.Base.{
  ℕ, zero, suc, String, ◌≡◌, refl, ◌≢◌, ap, ◌∙◌, true, false, Option, none, some, List, [], ◌∷◌,
  arith, ◌==◌, if◌then◌else◌,
}
use p2p_server.Protocol.{Candidate}
use p2p_server.Storage.Sqlite.{TextCodec, IsCodec, Json, IsJson}

mark : String → String → String
mark String.[] rest = String.◌∷◌ ";" rest
mark (String.◌∷◌ c s) rest = String.◌∷◌ "+" (String.◌∷◌ c (mark s rest))

join_all : List String → String
unfolding mark
join_all [] = ""
join_all (x ∷ xs) = mark x (join_all xs)

push : Char → List String → List String
push c [] = []
push c (x ∷ xs) = String.◌∷◌ c x ∷ xs

read_all : String → List String
unfolding push
read_all String.[] = []
read_all (String.◌∷◌ c String.[]) = if code c == b';' then "" ∷ [] else []
read_all (String.◌∷◌ c (String.◌∷◌ d s)) = elim (code c == b';') [
  | true ↦ "" ∷ read_all (String.◌∷◌ d s)
  | false ↦ push d (read_all s)
]

read_all-mark : (x rest : String) → read_all (mark x rest) ≡ x ∷ read_all rest
unfolding read_all mark push
read_all-mark String.[] String.[] = refl
read_all-mark String.[] (String.◌∷◌ d s) = refl
read_all-mark (String.◌∷◌ c s) rest = ap (push c) (read_all-mark s rest)

read_all-join_all : (xs : List String) → read_all (join_all xs) ≡ xs
unfolding join_all read_all
read_all-join_all [] = refl
read_all-join_all (x ∷ xs) =
    read_all-mark x (join_all xs) ∙ ap (λ ys. x ∷ ys) (read_all-join_all xs)

open_text : String → Option String
open_text String.[] = none
open_text (String.◌∷◌ c s) = some s

first_code : String → ℕ
first_code String.[] = 0
first_code (String.◌∷◌ c s) = code c

second : (s : String) → String.◌∷◌ "j" s ≢ "[]"
unfolding first_code
second s e = let q = ap first_code e in absurd (omega (arith, q))

-- A text that starts with `j` is not `[]`.
is_real : (s : String) → (String.◌∷◌ "j" s ≢ "") × (String.◌∷◌ "j" s ≢ "[]")
is_real s = (λ e. cc e, λ e. second s e)

unary : ℕ → String
unary zero = ""
unary (suc n) = String.◌∷◌ "1" (unary n)

size : String → ℕ
size String.[] = 0
size (String.◌∷◌ c s) = suc (size s)

size-unary : (n : ℕ) → size (unary n) ≡ n
unfolding size unary
size-unary zero = refl
size-unary (suc n) = ap suc (size-unary n)

fields : List Candidate → List String
unfolding unary
fields [] = []
fields (a ∷ rest) = a.kind ∷ a.ip ∷ unary a.port ∷ a.proto ∷ unary a.priority ∷ fields rest

addresses_of : List String → List Candidate
unfolding size
addresses_of (kind ∷ (ip ∷ (port ∷ (proto ∷ (priority ∷ xs))))) =
    record { kind = kind; ip = ip; port = size port; proto = proto; priority = size priority }
    ∷ addresses_of xs
addresses_of _ = []

addresses_of-fields : (xs : List Candidate) → addresses_of (fields xs) ≡ xs
unfolding addresses_of fields
addresses_of-fields [] = refl
addresses_of-fields (a ∷ rest) =
    rw (size-unary a.port, size-unary a.priority, addresses_of-fields rest) refl

strings_text : List String → String
strings_text xs = String.◌∷◌ "j" (join_all xs)

unfoldable string_codec : TextCodec String
string_codec = record {
  write = λ xs. some (strings_text xs);
  read = λ s. elim (open_text s) [ none ↦ none | some r ↦ some (read_all r) ];
}

string_codec-IsCodec : IsCodec string_codec
unfolding strings_text open_text string_codec
string_codec-IsCodec = record {
  text = strings_text;
  writes = λ xs n. refl;
  reads = λ xs n. ap some (read_all-join_all xs);
  is_real = λ xs n. is_real (join_all xs);
}

unfoldable address_codec : TextCodec Candidate
address_codec = record {
  write = λ xs. some (strings_text (fields xs));
  read = λ s. elim (open_text s) [ none ↦ none | some r ↦ some (addresses_of (read_all r)) ];
}

address_codec-IsCodec : IsCodec address_codec
unfolding strings_text open_text address_codec
address_codec-IsCodec = record {
  text = λ xs. strings_text (fields xs);
  writes = λ xs n. refl;
  reads =
      λ xs n. ap some (ap addresses_of (read_all-join_all (fields xs)) ∙ addresses_of-fields xs);
  is_real = λ xs n. is_real (join_all (fields xs));
}

pub marked : Json
marked = record { strings = string_codec; addresses = address_codec }

pub marked-IsJson : IsJson marked
unfolding marked
marked-IsJson = record { strings = string_codec-IsCodec; addresses = address_codec-IsCodec }
