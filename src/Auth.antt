-- ===== src/Auth.antt =====
-- internal/auth: what the cryptography and the text encodings of Go's library are taken for, and the
-- tokens, identities and tickets built on them.
pub mod Token
pub mod Identity
pub mod Ticket
pub mod Verify
use p2p_server.Base.{ℕ, String, Bool, Option, List}

-- Go's crypto and encoding packages, as functions on bytes. Nothing is assumed of them here; a
-- theorem that relies on a law of theirs says so.
pub record Crypto : Type 0 where
  -- `sha256.Sum256`
  pub sha256 : List ℕ → List ℕ
  -- `hmac.New(sha256.New, key)`, `Write` and `Sum(nil)`
  pub hmac : List ℕ → List ℕ → List ℕ
  -- `ed25519.Verify(pub, message, sig)`
  pub ed25519_verify : List ℕ → List ℕ → List ℕ → Bool
  -- `base32.StdEncoding.WithPadding(NoPadding)`
  pub b32_encode : List ℕ → String
  pub b32_decode : String → Option (List ℕ)
  -- `base64.RawURLEncoding` and `base64.URLEncoding`
  pub b64_encode : List ℕ → String
  pub b64_decode : String → Option (List ℕ)
  pub b64_decode_padded : String → Option (List ℕ)
