-- ===== src/Client/Cipher/Shared.antt =====
-- Both members derive the same key, so what one seals the other opens.
use p2p_server.Base.{
  ℕ, zero, suc, ◌+◌, ◌≡◌, refl, ap, inl, inr, true, false, String, List, [], ◌∷◌, ◌++◌, some, ok,
  arith, ltb, String_discrete, length, length-append, take, drop, Bool-cases, Option-cases,
}
use mathlib.Core.Path.{subst}
use p2p_server.Base.Dict.{lookup-insert_self}
use p2p_server.Auth.Token.{read_bytes}
use p2p_server.Storage.{Env}
use p2p_server.Client.Cipher.{
  Bytes, Primitives, PeerKey, CryptoState, bytes_lt, pair_info, derive, peer_at, encrypt, decrypt,
  public_key, aead_key_len, nonce_len,
}

-- What X25519 and ChaCha20-Poly1305 are documented to do: two parties agree on a secret, what was
-- sealed opens under the same key and nonce, and sealing adds 16 bytes.
pub record IsSound (p : Primitives) : Type 0 where
  pub agrees : (a b : Bytes) → p.ecdh a (p.public_of b) ≡ p.ecdh b (p.public_of a)
  pub opens : (k n m : Bytes) → p.unseal k n (p.seal k n m) ≡ some m
  pub overhead : (k n m : Bytes) → length (p.seal k n m) ≡ length m + 16

-- The order of two strings.
bytes_lt_asymm : (a b : Bytes) → bytes_lt a b ≡ true → bytes_lt b a ≡ false
unfolding bytes_lt
bytes_lt_asymm [] [] h = refl
bytes_lt_asymm [] (y ∷ ys) h = refl
bytes_lt_asymm (x ∷ xs) [] h = cc
bytes_lt_asymm (x ∷ xs) (y ∷ ys) h = ground (arith, h, bytes_lt_asymm xs ys)

bytes_lt_total : (a b : Bytes) → bytes_lt a b ≡ false → bytes_lt b a ≡ false → a ≡ b
unfolding bytes_lt
bytes_lt_total [] [] h k = refl
bytes_lt_total [] (y ∷ ys) h k = cc
bytes_lt_total (x ∷ xs) [] h k = cc
bytes_lt_total (x ∷ xs) (y ∷ ys) h k = ground (arith, h, k, bytes_lt_total xs ys)

-- The order of the two nodes does not matter.
pair_info_comm : (a b : Bytes) → pair_info a b ≡ pair_info b a
unfolding pair_info
pair_info_comm a b = elim (Bool-cases (bytes_lt b a)) [
  | inl h ↦ let k = bytes_lt_asymm b a h in ground (arith, h, k)
  | inr h ↦ elim (Bool-cases (bytes_lt a b)) [
    | inl k ↦ ground (arith, h, k)
    | inr k ↦ let e = bytes_lt_total a b k h in ground (arith, h, k, e)
  ]
]

length-read_bytes : (bytes : ℕ → ℕ) (n j : ℕ) → length (read_bytes bytes n j) ≡ n
unfolding read_bytes
length-read_bytes bytes zero j = refl
length-read_bytes bytes (suc n) j = ap suc (length-read_bytes bytes n (suc j))

take-append : {A : Type 0} (xs ys : List A) → take (length xs) (xs ++ ys) ≡ xs
take-append [] ys = refl
take-append (x ∷ xs) ys = ap (λ zs. x ∷ zs) (take-append xs ys)

drop-append : {A : Type 0} (xs ys : List A) → drop (length xs) (xs ++ ys) ≡ ys
drop-append [] ys = refl
drop-append (x ∷ xs) ys = drop-append xs ys

module _ (p : Primitives) (v : IsSound p) where
  derive_ok :
      (id : String) (node pub_key : Bytes) (c c' : CryptoState)
      → derive p id node pub_key c ≡ ok c'
      → (shared : Bytes) × (key : Bytes) × (p.ecdh c.priv pub_key ≡ some shared)
        × (p.hkdf shared (p.sha256 c.session_id) (pair_info c.self_node_id node) aead_key_len
            ≡ some key)
        × (peer_at p id c' ≡ some (record { key = key; peer_x = pub_key; ready = true }))
  unfolding derive
  derive_ok id node pub_key c c' h = elim (Option-cases (p.ecdh c.priv pub_key)) [
    | inl e ↦ absurd (ground (arith, h, e))
    | inr (shared, e) ↦
        elim (Option-cases
          (p.hkdf shared (p.sha256 c.session_id) (pair_info c.self_node_id node) aead_key_len)) [
            | inl f ↦ absurd (ground (arith, h, e, f))
            | inr (key, f) ↦
                let k : PeerKey = record { key = key; peer_x = pub_key; ready = true } in
                (
                  shared,
                  key,
                  e,
                  f,
                  ground (arith, h, e, f, lookup-insert_self String_discrete id k c.peers),
                )
          ]
  ]

  unseal_lem :
      (id : String) (key x nonce plain : Bytes) (c : CryptoState)
      → peer_at p id c ≡ some (record { key = key; peer_x = x; ready = true })
      → length nonce ≡ nonce_len
      → decrypt p id (nonce ++ p.seal key nonce plain) c ≡ ok plain
  unfolding decrypt
  unseal_lem id key x nonce plain c at n =
      let long = length-append nonce (p.seal key nonce plain) in
      let first : take nonce_len (nonce ++ p.seal key nonce plain) ≡ nonce =
        subst (λ i. take i (nonce ++ p.seal key nonce plain) ≡ nonce) n
          (take-append nonce (p.seal key nonce plain)) in
      let rest : drop nonce_len (nonce ++ p.seal key nonce plain) ≡ p.seal key nonce plain =
        subst (λ i. drop i (nonce ++ p.seal key nonce plain) ≡ p.seal key nonce plain) n
          (drop-append nonce (p.seal key nonce plain)) in
      let enough : ltb (length (nonce ++ p.seal key nonce plain)) (nonce_len + 16) ≡ false =
        ground (arith, long, n, v.overhead key nonce plain) in
      rw (at, enough, first, rest, v.opens key nonce plain) refl

  -- Over primitives that keep the laws, two members of one session, each of whom has derived a key
  -- from the other's public key and node ID: what one encrypts for the other, once the random source
  -- gives a nonce, the other decrypts to the same bytes.
  pub decrypt-encrypt :
      (env : Env) (alice bob alice' bob' : CryptoState) (alice_id bob_id : String) (plain : Bytes)
      → alice.session_id ≡ bob.session_id
      → env.rand_fails ≡ false
      → derive p bob_id bob.self_node_id (public_key p bob) alice ≡ ok alice'
      → derive p alice_id alice.self_node_id (public_key p alice) bob ≡ ok bob'
      → (sealed : Bytes) × (encrypt p env bob_id plain alice' ≡ ok sealed)
        × (decrypt p alice_id sealed bob' ≡ ok plain)
  unfolding encrypt public_key
  decrypt-encrypt env alice bob alice' bob' alice_id bob_id plain same_session random da db =
      let (sa, ka, ea, ha, pa) =
        derive_ok bob_id bob.self_node_id (p.public_of bob.priv) alice alice' da in
      let (sb, kb, eb, hb, pb) =
        derive_ok alice_id alice.self_node_id (p.public_of alice.priv) bob bob' db in
      let one_secret : sa ≡ sb = ground (arith, ea, eb, v.agrees alice.priv bob.priv) in
      let one_info = pair_info_comm alice.self_node_id bob.self_node_id in
      let one_key : ka ≡ kb = ground (arith, ha, hb, one_secret, one_info, same_session) in
      let nonce = read_bytes (env.random 0) nonce_len 0 in
      let put : encrypt p env bob_id plain alice' ≡ ok (nonce ++ p.seal kb nonce plain) =
        ground (arith, random, pa, one_key) in
      (
        nonce ++ p.seal kb nonce plain,
        put,
        unseal_lem alice_id kb (p.public_of alice.priv) nonce plain bob' pb
            (length-read_bytes (env.random 0) nonce_len 0),
      )
