-- ===== src/Protocol.antt =====
-- internal/protocol/protocol.go and message.go: the constants and data that the other parts share.
pub mod Frame
use p2p_server.Base.{ℕ, String, Bool, true, false}

-- `Mode*`
pub data Mode : Type 0 where
  pair group : Mode

-- `Member*`: the life of a member record.
pub data MemberStatus : Type 0 where
  active pending denied left : MemberStatus

-- `Role*`
pub data Role : Type 0 where
  owner member : Role

pub record Candidate : Type 0 where
  pub kind : String
  pub ip : String
  pub port : ℕ
  pub proto : String
  pub priority : ℕ

abbrev pub is_active : MemberStatus → Bool
is_active MemberStatus.active = true
is_active _ = false

abbrev pub is_pending : MemberStatus → Bool
is_pending MemberStatus.pending = true
is_pending _ = false

abbrev pub is_owner : Role → Bool
is_owner Role.owner = true
is_owner Role.member = false

abbrev pub default_max_relay_frame : ℕ
default_max_relay_frame = 65536

abbrev pub default_max_candidates : ℕ
default_max_candidates = 16
