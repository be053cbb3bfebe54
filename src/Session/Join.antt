-- ===== src/Session/Join.antt =====
-- internal/session/service.go: `Join`.
use p2p_server.Base.{
  ℕ, ◌*◌, String, Bool, not, ◌&&◌, ◌||◌, Option, none, some, List, Result, ok, err, ◌>>=◌, ◌>>◌,
  reject_if, map_err, same, if◌then◌else◌, false, true,
}
use p2p_server.Base.Search.{keep}
use p2p_server.Base.Texts.{hex}
use p2p_server.Protocol.{MemberStatus, Candidate, is_active}
use p2p_server.Storage.{
  Env, StoreError, not_found, MemberRecord, SessionRecord, Store, is_expired, member_by_node_id,
  JoinRequest, JoinOutcome,
}
use p2p_server.Auth.{Crypto}
use p2p_server.Auth.Token.{decode_token, hash, constant_time_equal_hex}
use p2p_server.Auth.Identity.{verify_join_proof}
use p2p_server.Auth.Ticket.{issue}
use p2p_server.Session.{
  ServiceError, bad_params, unauthorized, session_closed, session_expired, token_revoked,
  map_store_err, second, Service,
}

pub record JoinParams : Type 0 where
  pub session_id : String
  pub join_code : String
  pub token : String
  pub node_id : String
  pub public_key : List ℕ
  pub nonce : List ℕ
  pub signature : List ℕ
  pub connection_id : String
  pub capabilities : List String
  pub candidates : List Candidate

pub record JoinResult : Type 0 where
  pub session : SessionRecord
  pub member : MemberRecord
  pub peers : List MemberRecord
  pub rejoined : Bool
  pub is_owner : Bool
  pub ticket : String
  pub status : MemberStatus
  pub heartbeat : ℕ

-- `peersOf`
unfoldable pub peers_of : SessionRecord → String → List MemberRecord
peers_of rec self_id = keep (λ m. not (same m.id self_id || not (is_active m.status))) rec.members

-- A code that leads nowhere must not be told from one that has gone.
abbrev hide_not_found : StoreError → ServiceError
hide_not_found not_found = unauthorized
hide_not_found e = map_store_err e

abbrev pub is_none {ℓ} : {A : Type ℓ} → Option A → Bool
is_none none = true
is_none (some _) = false

module _ (c : Crypto) (st : Store) where
  -- The first `switch`: by ID, by code, or neither.
  unfoldable pub locate : Env → JoinParams → st.State → Result ServiceError SessionRecord
  locate env p state =
      if not (same p.session_id "")
      then map_err map_store_err (st.get env p.session_id state)
      else if not (same p.join_code "")
      then map_err hide_not_found (st.get_by_join_code env p.join_code state)
      else err bad_params

  -- The checks of the session, the token and the proof, in the code's order.
  unfoldable pub authorize : Service → JoinParams → SessionRecord → Result ServiceError (Unit {0})
  authorize s p rec = do
    reject_if rec.closed session_closed
    reject_if (is_expired rec s.now) session_expired
    raw ←
        map_err (λ _. unauthorized)
          (decode_token c (if same p.token "" then p.join_code else p.token))
    reject_if (not (constant_time_equal_hex (hash c raw) rec.token_hash)) unauthorized
    reject_if (rec.revoked && is_none (member_by_node_id rec p.node_id)) token_revoked
    map_err (λ _. unauthorized)
        (verify_join_proof c p.public_key p.node_id rec.token_hash p.nonce p.signature)

  abbrev pub join_request : Service → JoinParams → JoinRequest
  join_request s p = record {
    node_id = p.node_id;
    public_key = hex p.public_key;
    connection_id = p.connection_id;
    capabilities = p.capabilities;
    candidates = p.candidates;
    now = s.now;
  }

  abbrev join_result : Env → Service → JoinParams → JoinOutcome → JoinResult
  join_result env s p out = record {
    session = out.session;
    member = out.member;
    peers = peers_of out.session out.member.id;
    rejoined = out.rejoined;
    is_owner = out.is_owner;
    ticket =
        issue c s.ticket_key env.wall_clock out.session.id out.member.id p.connection_id
          out.member.role s.config.ticket_ttl;
    status = out.member.status;
    heartbeat = 15 * second;
  }

  unfoldable pub join :
      Env → Service → JoinParams → st.State → Result ServiceError (JoinResult × st.State)
  join env s p state = do
    rec ← locate env p state
    authorize s p rec
    (out, state') ← map_err map_store_err (st.join env rec.id (join_request s p) state)
    ok (join_result env s p out, state')
