-- ===== src/Member/Close.antt =====
-- internal/member/hub.go: `CloseMember`, `CloseSession` and `CloseAll`.
use p2p_server.Base.{ℕ, ◌+◌, String, none, some, List, [], ◌∷◌, ◌++◌, length}
use p2p_server.Member.{Room, Hub, room_at, conns_of, kick_all}
use p2p_server.Member.Deliver.{online_at}

-- The pointers of all connections of a room.
pub room_conns : Hub → List (String × ℕ) → List ℕ
room_conns h [] = []
room_conns h ((_, p) ∷ m) = conns_of (h.online p) ++ room_conns h m

unfoldable pub close_member : String → String → String → Hub → Hub
close_member sid mid reason h = elim (online_at h sid mid) [
  | none ↦ h
  | some om ↦ kick_all reason (conns_of om) h
]

unfoldable pub close_session : String → String → Hub → Hub
close_session sid reason h = elim (room_at h sid) [
  | none ↦ h
  | some r ↦ kick_all reason (room_conns h r.members) h
]

pub close_rooms : String → List (String × Room) → Hub → Hub × ℕ
close_rooms reason [] h = (h, 0)
close_rooms reason ((_, r) ∷ rs) h =
    let conns = room_conns h r.members in
    let (h', n) = close_rooms reason rs (kick_all reason conns h) in (h', length conns + n)

unfoldable pub close_all : String → Hub → Hub × ℕ
unfolding close_rooms room_conns
close_all reason h = close_rooms reason h.rooms h
