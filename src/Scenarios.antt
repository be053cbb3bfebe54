-- ===== src/Scenarios.antt =====
-- Sessions, members, calls and hubs that the examples run the code on.
pub mod Stores
pub mod Columns
pub mod Tables
pub mod Streams
pub mod Tickets
pub mod Ciphers
pub mod Requests
pub mod Services
pub mod Frames
pub mod Hubs
use p2p_server.Base.{ℕ, ◌≡◌, ◌≢◌, arith, same, String, Bool, true, false, none, some, List, [], ◌∷◌}
use p2p_server.Protocol.{Mode, MemberStatus, Role}
use p2p_server.Storage.{Env, MemberRecord, SessionRecord, JoinRequest}
use p2p_server.Storage.Memory.{MemoryStore}
use p2p_server.Auth.{Crypto}
use p2p_server.Member.{Kind, Conn, OnlineMember, Hub, new_conn}
use p2p_server.Member.Attach.{attach}
use p2p_server.Session.{Config, Service}

abbrev pub quiet : Env
quiet = record {
  ctx_err = none;
  wall_clock = 5;
  rand_fails = false;
  random = λ i j. 7;
  db_refuses = false;
  commit_fails = false;
}

abbrev pub alice : MemberRecord
alice = record {
  id = "mbr_1";
  session_id = "sess_1";
  index = 1;
  node_id = "node_a";
  public_key = "aa";
  role = Role.owner;
  status = MemberStatus.active;
  capabilities = [];
  candidates = [];
  connection_id = "conn_1";
  joined_at = 1;
  last_seen = 1;
  leave_at = 0;
}

abbrev pub bob : MemberRecord
bob = record {
  id = "mbr_2";
  session_id = "sess_1";
  index = 2;
  node_id = "node_b";
  public_key = "bb";
  role = Role.member;
  status = MemberStatus.pending;
  capabilities = [];
  candidates = [];
  connection_id = "";
  joined_at = 2;
  last_seen = 2;
  leave_at = 3;
}

-- A group of up to three, with approval, in which Bob waits.
abbrev pub group_of : List MemberRecord → SessionRecord
group_of ms = record {
  id = "sess_1";
  mode = Mode.group;
  join_code = "P2P-ab-cd";
  token_hash = "010203";
  join_limit = 5;
  joins_used = 2;
  max_members = 3;
  require_approval = true;
  owner_member_id = "mbr_1";
  revoked = false;
  closed = false;
  created_at = 1;
  expires_at = 100;
  idle_timeout = 10;
  members = ms;
}

abbrev pub group : SessionRecord
group = group_of (alice ∷ bob ∷ [])

abbrev pub stored : MemoryStore
stored = record { by_id = ("sess_1", group) ∷ []; by_code = ("P2PABCD", "sess_1") ∷ [] }

abbrev pub carol : JoinRequest
carol = record {
  node_id = "node_c";
  public_key = "cc";
  connection_id = "conn_3";
  capabilities = [];
  candidates = [];
  now = 6;
}

-- Encodings and hashes that accept everything.
abbrev pub lenient : Crypto
lenient = record {
  sha256 = λ b. 1 ∷ 2 ∷ 3 ∷ [];
  hmac = λ k b. [];
  ed25519_verify = λ k m s. true;
  b32_encode = λ b. "AAAABBBB";
  b32_decode = λ s. some full;
  b64_encode = λ b. "aa";
  b64_decode = λ s. some full;
  b64_decode_padded = λ s. none;
}
  where
    full : List ℕ
    full =
        0 ∷ 1 ∷ 2 ∷ 3 ∷ 4 ∷ 5 ∷ 6 ∷ 7 ∷ 0 ∷ 1 ∷ 2 ∷ 3 ∷ 4 ∷ 5 ∷ 6 ∷ 7 ∷ 0 ∷ 1 ∷ 2 ∷ 3 ∷ 4 ∷ 5 ∷ 6
        ∷ 7 ∷ 0 ∷ 1 ∷ 2 ∷ 3 ∷ 4 ∷ 5 ∷ 6 ∷ 7 ∷ []

abbrev pub service : Service
service = record {
  config = record { ticket_ttl = 600; member_grace = 50; default_ttl = 1800; max_sessions = 0 };
  ticket_key = [];
  now = 6;
}

-- Texts that compare as different are.
pub differ : (s t : String) → same s t ≡ false → s ≢ t
differ s t e = ground arith

abbrev idle_conn : Conn
idle_conn = new_conn "" "" "" Kind.control 0

abbrev nobody : OnlineMember
nobody = record {
  member_id = "";
  control = none;
  relay = none;
  conn_id = "";
  index = 0;
  approved = false;
}

abbrev pub empty_hub : Hub
empty_hub = record {
  rooms = [];
  conns = λ p. idle_conn;
  online = λ p. nobody;
  next_conn = 0;
  next_online = 0;
}

-- A hub after one member, and after two.
abbrev pub hub_1 : Hub
hub_1 = (attach 1 "sess_1" "mbr_1" "conn_1" Kind.relay 1 true empty_hub).0

abbrev pub hub_2 : Hub
hub_2 = (attach 2 "sess_1" "mbr_2" "conn_2" Kind.relay 2 true hub_1).0
