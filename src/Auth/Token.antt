-- ===== src/Auth/Token.antt =====
-- internal/auth/token.go: join tokens, as their 32 raw bytes, and the texts that stand for them.
use Prim.Native.Char.{code}
use p2p_server.Base.{
  ℕ, zero, suc, String, Bool, true, false, not, ◌&&◌, ◌||◌, Option, none, some, List, [], ◌∷◌,
  Result, ok, err, leb, ◌==◌, same, if◌then◌else◌, length,
}
use p2p_server.Base.Texts.{append, to_upper, trim_space, remove_char, hex}
use p2p_server.Storage.{Env}
use p2p_server.Auth.{Crypto}

pub data TokenError : Type 0 where
  bad_token rand_failed : TokenError

abbrev pub token_bytes : ℕ
token_bytes = 32

-- `n` bytes of one `rand.Read`.
unfoldable pub read_bytes : (ℕ → ℕ) → ℕ → ℕ → List ℕ
read_bytes bytes zero j = []
read_bytes bytes (suc n) j = bytes j ∷ read_bytes bytes n (suc j)

unfoldable pub new_join_token : Env → Result TokenError (List ℕ)
unfolding read_bytes
new_join_token env =
    if env.rand_fails then err rand_failed else ok (read_bytes (env.random 0) token_bytes 0)

unfoldable pub from_raw : List ℕ → Result TokenError (List ℕ)
from_raw raw = if length raw == token_bytes then ok raw else err bad_token

-- The characters of a text in groups of four, a dash between two groups; `n` stand in the group so
-- far.
pub grouped : ℕ → String → String
grouped n String.[] = ""
grouped n (String.◌∷◌ c s) =
    let here = String.◌∷◌ c (grouped (suc n) s) in
    let next = String.◌∷◌ "-" (String.◌∷◌ c (grouped 1 s)) in if n == 4 then next else here

-- A text is at least four characters long and they spell `P2P-`, in any case.
pub has_prefix : String → Bool
has_prefix (String.◌∷◌ a (String.◌∷◌ b (String.◌∷◌ c (String.◌∷◌ d s)))) =
    same (to_upper (String.◌∷◌ a (String.◌∷◌ b (String.◌∷◌ c (String.◌∷◌ d ""))))) "P2P-"
has_prefix _ = false

pub drop_four : String → String
drop_four (String.◌∷◌ a (String.◌∷◌ b (String.◌∷◌ c (String.◌∷◌ d s)))) = s
drop_four _ = ""

abbrev is_base32 : ℕ → Bool
is_base32 r = leb b'A' r && leb r b'Z' || leb b'a' r && leb r b'z' || leb b'2' r && leb r b'7'

pub all_base32 : String → Bool
all_base32 String.[] = true
all_base32 (String.◌∷◌ c s) = is_base32 (code c) && all_base32 s

-- `isBase32Alphabet`
unfoldable pub is_base32_alphabet : String → Bool
unfolding all_base32
is_base32_alphabet s = not (same s "") && all_base32 s

-- `err == nil && len(raw) == TokenBytes`
abbrev pub token_or {ℓ} : {A : Type ℓ} → Option (List ℕ) → (List ℕ → A) → A → A
token_or none yes_ no_ = no_
token_or (some raw) yes_ no_ = if length raw == token_bytes then yes_ raw else no_

module _ (c : Crypto) where
  -- `Hash`, and `hashTokenRaw` of internal/session/errors.go.
  unfoldable pub hash : List ℕ → String
  hash raw = hex (c.sha256 raw)

  unfoldable pub encode_join_code : List ℕ → String
  unfolding grouped
  encode_join_code raw =
      if length raw == token_bytes then append "P2P-" (grouped 0 (c.b32_encode raw)) else ""

  -- `decodeB64u`
  unfoldable pub decode_b64u : String → Option (List ℕ)
  decode_b64u s = elim (c.b64_decode s) [ some raw ↦ some raw | none ↦ c.b64_decode_padded s ]

  -- The last two attempts of `DecodeToken`.
  decode_plain : String → String → Result TokenError (List ℕ)
  decode_plain s compact =
      token_or (decode_b64u s) ok (token_or (c.b32_decode (to_upper compact)) ok (err bad_token))

  unfoldable pub decode_token : String → Result TokenError (List ℕ)
  unfolding has_prefix drop_four decode_plain
  decode_token input =
      let s = trim_space input in
      let body = remove_char " " (remove_char "-" (to_upper (drop_four s))) in
      let compact = remove_char "_" (remove_char "-" s) in
      if same s ""
      then err bad_token
      else if has_prefix s
      then token_or (c.b32_decode body) ok (err bad_token)
      else if is_base32_alphabet compact
      then token_or (c.b32_decode (to_upper compact)) ok (decode_plain s compact)
      else decode_plain s compact

  -- `HashTokenString`
  unfoldable pub hash_token_string : String → Result TokenError String
  hash_token_string s = elim (decode_token s) [ ok raw ↦ ok (hash raw) | err e ↦ err e ]

-- `ConstantTimeEqualHex`
abbrev pub constant_time_equal_hex : String → String → Bool
constant_time_equal_hex a b = same a b
