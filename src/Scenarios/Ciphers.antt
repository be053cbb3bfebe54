-- ===== src/Scenarios/Ciphers.antt =====
-- An example of the pair keys' theorem, with a seal that only marks the text.
use p2p_server.Base.{
  ℕ, ◌≡◌, refl, [], ◌∷◌, ◌++◌, some, ok, arith, length-append, drop, String, true,
}
use p2p_server.Base.Dict.{insert}
use p2p_server.Client.Cipher.{Bytes, Primitives, CryptoState, derive, encrypt, decrypt, public_key}
use p2p_server.Client.Cipher.Shared.{IsSound, decrypt-encrypt}
use p2p_server.Scenarios.{quiet}

abbrev mark : Bytes
mark = 0 ∷ 0 ∷ 0 ∷ 0 ∷ 0 ∷ 0 ∷ 0 ∷ 0 ∷ 0 ∷ 0 ∷ 0 ∷ 0 ∷ 0 ∷ 0 ∷ 0 ∷ 0 ∷ []

abbrev key_of : ℕ → Bytes
key_of n = n ∷ n ∷ n ∷ n ∷ n ∷ n ∷ n ∷ n ∷ n ∷ n ∷ n ∷ n ∷ n ∷ n ∷ n ∷ n ∷ mark

-- A private key is its public key, and all share one secret.
abbrev toy : Primitives
toy = record {
  generate = λ random. key_of (random 0);
  public_of = λ k. k;
  ecdh = λ a b. some [];
  hkdf = λ secret salt info n. some (key_of 1);
  sha256 = λ b. b;
  seal = λ k n m. mark ++ m;
  unseal = λ k n s. some (drop 16 s);
}

toy-IsSound : IsSound toy
toy-IsSound = record {
  agrees = λ a b. refl;
  opens = λ k n m. refl;
  overhead = λ k n m. ground (arith, length-append mark m);
}

state_of : ℕ → Bytes → CryptoState
state_of n node = record { priv = key_of n; peers = []; self_node_id = node; session_id = 5 ∷ [] }

-- The state after a key for one peer.
with_peer : ℕ → ℕ → String → Bytes → CryptoState
unfolding state_of
with_peer n m peer_id node = record (state_of n node) {
  peers = (peer_id, record { key = key_of 1; peer_x = key_of m; ready = true }) ∷ [];
}

decrypt-encrypt_example :
    (sealed : Bytes) × (encrypt toy quiet "mbr_2" (7 ∷ 8 ∷ []) (with_peer 2 3 "mbr_2" (9 ∷ []))
      ≡ ok sealed)
    × (decrypt toy "mbr_1" sealed (with_peer 3 2 "mbr_1" (4 ∷ [])) ≡ ok (7 ∷ 8 ∷ []))
unfolding state_of with_peer derive insert public_key
decrypt-encrypt_example =
    decrypt-encrypt toy toy-IsSound quiet (state_of 2 (9 ∷ [])) (state_of 3 (4 ∷ []))
      (with_peer 2 3 "mbr_2" (9 ∷ [])) (with_peer 3 2 "mbr_1" (4 ∷ [])) "mbr_1" "mbr_2" (7 ∷ 8 ∷ [])
      refl refl refl refl
