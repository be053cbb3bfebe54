-- ===== src/Member/Deliver.antt =====
-- internal/member/hub.go: `Deliver` and `Broadcast`.
use p2p_server.Base.{
  ℕ, ◌+◌, String, Bool, false, not, ◌||◌, Option, none, some, List, [], ◌∷◌, same, if◌then◌else◌,
  String_discrete,
}
use p2p_server.Base.Dict.{lookup}
use p2p_server.Member.{Packet, text, binary, OnlineMember, Hub, room_at, send_to}

-- The connection that a frame goes to: a binary one to the relay first, a text to the control plane.
abbrev pub pick : Packet → Option ℕ → Option ℕ → Option ℕ
pick (binary b) control (some r) = some r
pick (binary b) control none = control
pick (text t) (some c) relay = some c
pick (text t) none relay = relay

abbrev pub send_if : Packet → Option ℕ → Hub → Hub × Bool
send_if f none h = (h, false)
send_if f (some p) h = send_to f p h

abbrev pub online_at : Hub → String → String → Option OnlineMember
online_at h sid mid = elim (room_at h sid) [
  | none ↦ none
  | some r ↦ elim (lookup String_discrete mid r.members) [
    | none ↦ none
    | some p ↦ some (h.online p)
  ]
]

unfoldable pub deliver : String → String → Packet → Hub → Hub × Bool
deliver sid mid f h = elim (online_at h sid mid) [
  | none ↦ (h, false)
  | some om ↦ send_if f (pick f om.control om.relay) h
]

-- In a broadcast a text goes to the control plane alone.
abbrev pub pick_all : Packet → OnlineMember → Option ℕ
pick_all (binary b) om = pick (binary b) om.control om.relay
pick_all (text t) om = om.control

-- `onlineView`s of a room.
abbrev pub snapshot : Hub → List (String × ℕ) → List OnlineMember
snapshot h [] = []
snapshot h ((_, p) ∷ m) = h.online p ∷ snapshot h m

abbrev pub is_left_out : String → OnlineMember → Bool
is_left_out exclude v = same v.member_id exclude || not v.approved

-- The callback of `Broadcast` on each view, and the count of those on which it answers true.
unfoldable pub broadcast_to : String → Packet → List OnlineMember → Hub → Hub × ℕ
broadcast_to exclude f [] h = (h, 0)
broadcast_to exclude f (v ∷ vs) h =
    let skip = broadcast_to exclude f vs h in
    let (h', n) = broadcast_to exclude f vs (send_if f (pick_all f v) h).0 in
    if is_left_out exclude v then skip else (h', n + 1)

unfoldable pub broadcast : String → String → Packet → Hub → Hub × ℕ
broadcast sid exclude f h = elim (room_at h sid) [
  | none ↦ (h, 0)
  | some r ↦ broadcast_to exclude f (snapshot h r.members) h
]
