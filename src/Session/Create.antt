-- ===== src/Session/Create.antt =====
-- internal/session/service.go: `New` and `Create`.
use p2p_server.Base.{
  ℕ, ◌+◌, ◌*◌, String, Bool, false, List, [], Result, ok, err, ◌>>=◌, ◌>>◌, reject_if, map_err, ltb,
  same, if◌then◌else◌, ◌==◌,
}
use p2p_server.Base.Int.{ℤ, is_negative, positive_or, to_nat}
use p2p_server.Base.Texts.{to_lower, trim_space}
use p2p_server.Protocol.{Mode}
use p2p_server.Storage.{Env, SessionRecord, Store}
use p2p_server.Auth.{Crypto}
use p2p_server.Auth.Token.{new_join_token, hash, encode_join_code}
use p2p_server.Auth.Ticket.{random_id}
use p2p_server.Session.{
  ServiceError, bad_params, rand_failed, map_store_err, second, default_pair_members,
  default_group_members, max_group_members, max_ttl, Config, Service,
}

-- `New` on the durations that are not positive, which are 0 here.
unfoldable pub with_defaults : Config → Config
with_defaults cfg = record cfg {
  ticket_ttl = if cfg.ticket_ttl == 0 then 600 * second else cfg.ticket_ttl;
  member_grace = if cfg.member_grace == 0 then 300 * second else cfg.member_grace;
  default_ttl = if cfg.default_ttl == 0 then 1800 * second else cfg.default_ttl;
}

pub record CreateParams : Type 0 where
  pub mode : String
  pub max_members : ℤ
  pub join_limit : ℤ
  pub ttl : ℤ
  pub require_approval : Bool
  pub idle_timeout : ℕ

pub record CreateResult : Type 0 where
  pub session : SessionRecord
  pub token : List ℕ
  pub join_code : String
  pub session_id : String
  pub expires_at : ℕ

unfoldable pub parse_mode : String → Result ServiceError Mode
parse_mode text =
    let mode = to_lower (trim_space text) in
    if same mode ""
    then ok Mode.pair
    else if same mode "pair"
    then ok Mode.pair
    else if same mode "group"
    then ok Mode.group
    else err bad_params

unfoldable pub member_limit : Mode → ℤ → ℕ
member_limit Mode.pair n = default_pair_members
member_limit Mode.group n = positive_or default_group_members n

-- The record of a new session, from the parameters that were checked.
unfoldable pub new_session :
    Crypto → Env → Service → CreateParams → Mode → ℕ → ℕ → List ℕ → SessionRecord
new_session c env s p mode limit ttl token = record {
  id = random_id "sess_" (env.random 1) 12;
  mode = mode;
  join_code = encode_join_code c token;
  token_hash = hash c token;
  join_limit = to_nat p.join_limit;
  joins_used = 0;
  max_members = limit;
  require_approval = p.require_approval;
  owner_member_id = "";
  revoked = false;
  closed = false;
  created_at = s.now;
  expires_at = s.now + ttl;
  idle_timeout = p.idle_timeout;
  members = [];
}

module _ (c : Crypto) (st : Store) where
  unfoldable pub create :
      Env → Service → CreateParams → st.State → Result ServiceError (CreateResult × st.State)
  create env s p state = do
    mode ← parse_mode p.mode
    let limit = member_limit mode p.max_members
    reject_if (ltb max_group_members limit) bad_params
    reject_if (is_negative p.join_limit) bad_params
    let ttl = positive_or s.config.default_ttl p.ttl
    reject_if (ltb max_ttl ttl) bad_params
    token ← map_err (λ _. rand_failed) (new_join_token env)
    (rec, state') ←
        map_err map_store_err (st.create env (new_session c env s p mode limit ttl token) state)
    ok (
      record {
        session = rec;
        token = token;
        join_code = rec.join_code;
        session_id = rec.id;
        expires_at = rec.expires_at;
      },
      state',
    )
