-- ===== src/Client/Cipher.antt =====
-- pkg/sessionclient/crypto.go: the keys that two members agree on, and what is sealed under them.
-- X25519, HKDF, SHA-256 and ChaCha20-Poly1305 are parameters; node and session IDs are their bytes.
pub mod Shared
use p2p_server.Base.{
  ℕ, ◌+◌, Bool, true, false, not, ◌&&◌, ◌||◌, String, List, [], ◌∷◌, ◌++◌, Option, none, some,
  Result, ok, err, ◌>>=◌, ◌>>◌, reject_if, or_fail, ltb, ◌==◌, if◌then◌else◌, String_discrete,
  length, take, drop,
}
use p2p_server.Base.Dict.{lookup, insert, erase}
use p2p_server.Base.Texts.{bytes_of}
use p2p_server.Auth.Token.{read_bytes}
use p2p_server.Storage.{Env}

abbrev pub Bytes : Type 0
Bytes = List ℕ

-- The cryptography that the code calls; none is an error.
pub record Primitives : Type 0 where
  -- the private key that `GenerateKey` makes of random bytes
  pub generate : (ℕ → ℕ) → Bytes
  -- `PublicKey().Bytes()` of a private key, and `NewPublicKey` with `ECDH`
  pub public_of : Bytes → Bytes
  pub ecdh : Bytes → Bytes → Option Bytes
  -- `hkdf.Key(sha256.New, secret, salt, info, n)`
  pub hkdf : Bytes → Bytes → Bytes → ℕ → Option Bytes
  pub sha256 : Bytes → Bytes
  -- `Seal` and `Open` under a key and a nonce
  pub seal : Bytes → Bytes → Bytes → Bytes
  pub unseal : Bytes → Bytes → Bytes → Option Bytes

pub data CipherError : Type 0 where
  bad_peer_key bad_key no_session_key decrypt_failed rand_failed : CipherError

abbrev pub aead_key_len : ℕ
aead_key_len = 32

abbrev pub nonce_len : ℕ
nonce_len = 12

abbrev pub key_info_prefix : String
key_info_prefix = "p2psession/pairwise/v1"

pub record PeerKey : Type 0 where
  pub key : Bytes
  pub peer_x : Bytes
  pub ready : Bool

pub record CryptoState : Type 0 where
  pub priv : Bytes
  pub peers : List (String × PeerKey)
  pub self_node_id : Bytes
  pub session_id : Bytes

-- `a < b` on strings of Go.
unfoldable pub bytes_lt : Bytes → Bytes → Bool
bytes_lt [] [] = false
bytes_lt [] (y ∷ ys) = true
bytes_lt (x ∷ xs) [] = false
bytes_lt (x ∷ xs) (y ∷ ys) = ltb x y || (x == y && bytes_lt xs ys)

abbrev pub info_of : Bytes → Bytes → Bytes
info_of a b = bytes_of key_info_prefix ++ 0 ∷ (a ++ 0 ∷ b)

-- The IDs in order, behind the prefix.
unfoldable pub pair_info : Bytes → Bytes → Bytes
pair_info a b = if bytes_lt b a then info_of b a else info_of a b

module _ (p : Primitives) where
  -- `newCryptoState`
  unfoldable pub new_crypto_state : Env → Bytes → Bytes → Result CipherError CryptoState
  new_crypto_state env self_node_id session_id = do
    reject_if env.rand_fails rand_failed
    ok (record {
      priv = p.generate (env.random 0);
      peers = [];
      self_node_id = self_node_id;
      session_id = session_id;
    })

  -- `PublicKey`
  unfoldable pub public_key : CryptoState → Bytes
  public_key c = p.public_of c.priv

  -- `derive`
  unfoldable pub derive : String → Bytes → Bytes → CryptoState → Result CipherError CryptoState
  derive peer_id peer_node peer_pub c = do
    reject_if (not (length peer_pub == 32)) bad_peer_key
    shared ← or_fail (p.ecdh c.priv peer_pub) bad_peer_key
    key ←
        or_fail
          (p.hkdf shared (p.sha256 c.session_id) (pair_info c.self_node_id peer_node) aead_key_len)
          bad_key
    reject_if (not (length key == aead_key_len)) bad_key
    ok (record c {
      peers =
          insert String_discrete peer_id (record { key = key; peer_x = peer_pub; ready = true })
            c.peers;
    })

  abbrev pub peer_at : String → CryptoState → Option PeerKey
  peer_at peer_id c = lookup String_discrete peer_id c.peers

  -- `ready`
  unfoldable pub is_ready : String → CryptoState → Bool
  is_ready peer_id c = elim (peer_at peer_id c) [ none ↦ false | some k ↦ k.ready ]

  -- `encrypt`
  unfoldable pub encrypt : Env → String → Bytes → CryptoState → Result CipherError Bytes
  encrypt env peer_id plain c = do
    k ← or_fail (peer_at peer_id c) no_session_key
    reject_if (not k.ready) no_session_key
    reject_if env.rand_fails rand_failed
    let nonce = read_bytes (env.random 0) nonce_len 0
    ok (nonce ++ p.seal k.key nonce plain)

  -- `decrypt`
  unfoldable pub decrypt : String → Bytes → CryptoState → Result CipherError Bytes
  decrypt peer_id sealed c = do
    k ← or_fail (peer_at peer_id c) no_session_key
    reject_if (not k.ready) no_session_key
    reject_if (ltb (length sealed) (nonce_len + 16)) decrypt_failed
    or_fail (p.unseal k.key (take nonce_len sealed) (drop nonce_len sealed)) decrypt_failed

  -- `peerPub`
  unfoldable pub peer_pub : String → CryptoState → Bytes
  peer_pub peer_id c = elim (peer_at peer_id c) [ none ↦ [] | some k ↦ k.peer_x ]

  -- `forget`
  unfoldable pub forget : String → CryptoState → CryptoState
  forget peer_id c = record c { peers = erase String_discrete peer_id c.peers }
