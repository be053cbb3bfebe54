-- ===== src/Member.antt =====
-- internal/member/hub.go: who is online, and the frames that wait for each connection. Connections
-- and online members are shared through pointers, so they stand in two heaps; a method of the
-- hub runs here without another in between.
pub mod Attach
pub mod Deliver
pub mod Members
pub mod Close
pub mod Presence
pub mod Entry
pub mod Queue
pub mod Approval
pub mod Departure
use p2p_server.Base.{
  ℕ, suc, ◌+◌, String, Bool, true, false, Option, none, some, List, [], ◌∷◌, ◌++◌, leb, ltb, ◌==◌,
  length, if◌then◌else◌, String_discrete,
}
use p2p_server.Base.Dict.{lookup, insert}

abbrev pub default_send_queue : ℕ
default_send_queue = 256

abbrev pub slow_drop_limit : ℕ
slow_drop_limit = 64

-- `Frame`, of which one field is set.
pub data Packet : Type 0 where
  text binary : List ℕ → Packet

-- `Kind*`
pub data Kind : Type 0 where
  control relay : Kind

-- `Conn`: the channel `out` with its frames, the oldest first, and the closed `closed` channel.
pub record Conn : Type 0 where
  pub id : String
  pub session_id : String
  pub member_id : String
  pub kind : Kind
  pub out : List Packet
  pub is_closed : Bool
  pub kick_reason : String
  pub dropped : ℕ
  pub last_seen : ℕ

-- `onlineMember`; a connection is a pointer.
pub record OnlineMember : Type 0 where
  pub member_id : String
  pub control : Option ℕ
  pub relay : Option ℕ
  pub conn_id : String
  pub index : ℕ
  pub approved : Bool

-- `Room`: both maps hold pointers to online members.
pub record Room : Type 0 where
  pub session_id : String
  pub members : List (String × ℕ)
  pub by_index : List (ℕ × ℕ)

-- `Hub`, with the two heaps and the next pointers that they give out.
pub record Hub : Type 0 where
  pub rooms : List (String × Room)
  pub conns : ℕ → Conn
  pub online : ℕ → OnlineMember
  pub next_conn : ℕ
  pub next_online : ℕ

abbrev pub update {ℓ} : {A : Type ℓ} → (ℕ → A) → ℕ → A → ℕ → A
update h k v j = if k == j then v else h j

abbrev pub room_at : Hub → String → Option Room
room_at h sid = lookup String_discrete sid h.rooms

abbrev pub put_room : String → Room → Hub → Hub
put_room sid r h = record h { rooms = insert String_discrete sid r h.rooms }

unfoldable pub new_conn : String → String → String → Kind → ℕ → Conn
new_conn id sid mid kind now = record {
  id = id;
  session_id = sid;
  member_id = mid;
  kind = kind;
  out = [];
  is_closed = false;
  kick_reason = "";
  dropped = 0;
  last_seen = now;
}

-- `kick`
unfoldable pub kick : String → Conn → Conn
kick reason c = record c { kick_reason = reason; is_closed = true }

-- `Send`: the connection after it, and whether the frame was queued.
unfoldable pub send : Packet → Conn → Conn × Bool
send f c =
    let c' = record c { dropped = c.dropped + 1 } in
    if ltb (length c.out) default_send_queue
    then (record c { out = c.out ++ f ∷ [] }, true)
    else if leb slow_drop_limit (c.dropped + 1)
    then (kick "slow consumer" c', false)
    else (c', false)

-- `send` and `kick` through a pointer.
abbrev pub send_to : Packet → ℕ → Hub → Hub × Bool
send_to f p h =
    (record h { conns = update h.conns p (send f (h.conns p)).0 }, (send f (h.conns p)).1)

abbrev pub kick_at : String → ℕ → Hub → Hub
kick_at reason p h = record h { conns = update h.conns p (kick reason (h.conns p)) }

-- `for _, c := range conns { c.kick(reason) }`
unfoldable pub kick_all : String → List ℕ → Hub → Hub
kick_all reason [] h = h
kick_all reason (p ∷ ps) h = kick_all reason ps (kick_at reason p h)

-- `Touch`
unfoldable pub touch : ℕ → ℕ → Hub → Hub
touch now p h = record h { conns = update h.conns p (record (h.conns p) { last_seen = now }) }

-- The pointers of a member's connections, the control plane's first.
abbrev pub conns_of : OnlineMember → List ℕ
conns_of om = pointers om.control om.relay
  where
    pointers : Option ℕ → Option ℕ → List ℕ
    pointers none none = []
    pointers none (some r) = r ∷ []
    pointers (some c) none = c ∷ []
    pointers (some c) (some r) = c ∷ r ∷ []
