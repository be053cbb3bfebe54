-- ===== src/Auth/Identity.antt =====
-- internal/auth/identity.go: node identities and the proof that a node sends with a join.
use p2p_server.Base.{
  ℕ, String, not, List, ◌∷◌, ◌++◌, Result, ok, ◌>>◌, reject_if, ◌==◌, same, length, take,
}
use p2p_server.Base.Texts.{bytes_of, hex}
use p2p_server.Auth.{Crypto}

pub data ProofError : Type 0 where
  bad_key_size node_mismatch proof_invalid : ProofError

abbrev pub public_key_size : ℕ
public_key_size = 32

abbrev domain_sep_join : String
domain_sep_join = "p2psession:join:v1\n"

module _ (c : Crypto) where
  -- `NodeIDFromPublic`
  unfoldable pub node_id_from_public : List ℕ → String
  node_id_from_public key = hex (take 16 (c.sha256 key))

  unfoldable pub join_proof_message : String → List ℕ → List ℕ
  join_proof_message token_hash nonce =
      c.sha256 (bytes_of domain_sep_join ++ (bytes_of token_hash ++ (0 ∷ nonce)))

  unfoldable pub verify_join_proof :
      List ℕ → String → String → List ℕ → List ℕ → Result ProofError (Unit {0})
  verify_join_proof key node_id token_hash nonce sig = do
    reject_if (not (length key == public_key_size)) bad_key_size
    reject_if (not (same (node_id_from_public key) node_id)) node_mismatch
    reject_if (not (c.ed25519_verify key (join_proof_message token_hash nonce) sig)) proof_invalid
    ok tt
