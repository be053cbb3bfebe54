-- ===== src/Session/Authorization.antt =====
-- Who gets into a session, and who counts as one of its active members, over any store.
use p2p_server.Base.{
  ℕ, ◌≡◌, ◌≢◌, ◌⊎◌, inl, inr, ◌↔◌, String, true, false, none, some, List, ok, err, arith, same,
  Result-cases, Option-cases, if◌then◌else◌,
}
use p2p_server.Protocol.{is_active}
use p2p_server.Storage.{
  Env, not_found, MemberRecord, SessionRecord, Store, is_expired, member_by_id, member_by_node_id,
}
use p2p_server.Auth.{Crypto}
use p2p_server.Auth.Token.{decode_token, hash}
use p2p_server.Auth.Identity.{verify_join_proof}
use p2p_server.Session.{unauthorized, Service}
use p2p_server.Session.Join.{JoinParams, JoinResult, locate, authorize, join}
use p2p_server.Session.Query.{member_index_for}

-- What a node shows to be let in.
pub record IsAuthorized (c : Crypto) (s : Service) (p : JoinParams) (rec : SessionRecord)
    : Type 0 where
  pub is_open : rec.closed ≡ false
  pub alive : is_expired rec s.now ≡ false
  pub token :
      (raw : List ℕ) × (decode_token c (if same p.token "" then p.join_code else p.token) ≡ ok raw)
      × (hash c raw ≡ rec.token_hash)
  pub proof : verify_join_proof c p.public_key p.node_id rec.token_hash p.nonce p.signature ≡ ok tt
  pub not_revoked : (rec.revoked ≡ false) ⊎ (member_by_node_id rec p.node_id ≢ none)

module _ (c : Crypto) (st : Store) where
  authorize_ok :
      (s : Service) (p : JoinParams) (rec : SessionRecord)
      → authorize c st s p rec ≡ ok tt
      → IsAuthorized c s p rec
  unfolding authorize
  authorize_ok s p rec e =
      elim (Result-cases (decode_token c (if same p.token "" then p.join_code else p.token))) [
        | inr (x, d) ↦ absurd (ground (arith, d, e))
        | inl (raw, d) ↦
            elim (Result-cases
              (verify_join_proof c p.public_key p.node_id rec.token_hash p.nonce p.signature)) [
                | inr (x, v) ↦ absurd (ground (arith, d, v, e))
                | inl (tt_, v) ↦ record {
                  is_open = ground (arith, d, v, e);
                  alive = ground (arith, d, v, e);
                  token = (raw, d, ground (arith, d, v, e));
                  proof = v;
                  not_revoked = elim (Option-cases (member_by_node_id rec p.node_id)) [
                    | inl n ↦ inl (ground (arith, d, v, e, n))
                    | inr (m, n) ↦ inr (λ q. cc (n, q))
                  ];
                }
              ]
      ]

  -- Nobody joins without a token whose hash is the session's and a valid proof of the node's
  -- identity for that token; the session is open and alive, and if its token is revoked the node
  -- is a member already.
  pub join-IsAuthorized :
      (env : Env) (s : Service) (p : JoinParams) (state state' : st.State) (out : JoinResult)
      → join c st env s p state ≡ ok (out, state')
      → (rec : SessionRecord) × (locate c st env p state ≡ ok rec) × IsAuthorized c s p rec
  unfolding join
  join-IsAuthorized env s p state state' out h = elim (Result-cases (locate c st env p state)) [
    | inr (x, l) ↦ absurd (ground (arith, l, h))
    | inl (rec, l) ↦ elim (Result-cases (authorize c st s p rec)) [
      | inr (x, a) ↦ absurd (ground (arith, l, a, h))
      | inl (u, a) ↦ (rec, l, authorize_ok s p rec a)
    ]
  ]

  -- A join code that leads to no session gives the answer of a wrong token.
  pub join-unknown_code :
      (env : Env) (s : Service) (p : JoinParams) (state : st.State)
      → p.session_id ≡ ""
      → p.join_code ≢ ""
      → st.get_by_join_code env p.join_code state ≡ err not_found
      → join c st env s p state ≡ err unauthorized
  unfolding join locate
  join-unknown_code env s p state no_id code missing = ground (arith, no_id, code, missing)

module _ (st : Store) where
  -- What the relay takes for an active member: the session is there, open and alive, and the
  -- member in it is active; its index is then the member's.
  pub member_index_for_iff :
      (env : Env) (s : Service) (sid mid : String) (state : st.State) (i : ℕ)
      → (member_index_for st env s sid mid state ≡ some i) ↔ (
          (rec : SessionRecord) × (m : MemberRecord) × (st.get
              (record env { ctx_err = none })
              sid
              state
            ≡ ok rec)
          × (is_expired rec s.now ≡ false)
          × (rec.closed ≡ false)
          × (member_by_id rec mid ≡ some m)
          × (is_active m.status ≡ true)
          × (m.index ≡ i))
  unfolding member_index_for
  member_index_for_iff env s sid mid state i = (
    λ h. elim (Result-cases (st.get (record env { ctx_err = none }) sid state)) [
      | inr (x, e) ↦ absurd (ground (arith, e, h))
      | inl (rec, e) ↦ elim (Option-cases (member_by_id rec mid)) [
        | inl f ↦ absurd (ground (arith, e, f, h))
        | inr (m, f) ↦ (
          rec,
          m,
          e,
          ground (arith, e, f, h),
          ground (arith, e, f, h),
          f,
          ground (arith, e, f, h),
          ground (arith, e, f, h),
        )
      ]
    ],
    λ (rec, m, e, alive, is_open, f, a, x). ground (arith, e, alive, is_open, f, a, x),
  )
