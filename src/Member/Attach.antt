-- ===== src/Member/Attach.antt =====
-- internal/member/hub.go: `Attach` and `Detach`.
use p2p_server.Base.{
  ℕ, suc, String, Bool, true, false, Option, none, some, List, [], ◌∷◌, ◌==◌, if◌then◌else◌,
  String_discrete, ℕ_discrete,
}
use p2p_server.Base.Dict.{lookup, insert, erase}
use p2p_server.Member.{
  Kind, control, relay, OnlineMember, Room, Hub, update, room_at, put_room, new_conn, kick_at,
}

-- `room`: the session's room, made if there is none.
abbrev pub room_or_new : Hub → String → Room
room_or_new h sid = elim (room_at h sid) [
  | some r ↦ r
  | none ↦ record { session_id = sid; members = []; by_index = [] }
]

-- The member's pointer and record, allocated if the room has none.
abbrev pub online_or_new : Hub → Room → String → ℕ × OnlineMember
online_or_new h r mid = elim (lookup String_discrete mid r.members) [
  | some p ↦ (p, h.online p)
  | none ↦ (
    h.next_online,
    record {
      member_id = mid;
      control = none;
      relay = none;
      conn_id = "";
      index = 0;
      approved = false;
    },
  )
]

-- The writes to the member, with its connection in the place of its kind.
abbrev pub attached : Kind → ℕ → String → ℕ → Bool → OnlineMember → OnlineMember
attached control c conn_id index approved om = record om {
  control = some c;
  conn_id = conn_id;
  index = index;
  approved = approved;
}
attached relay c conn_id index approved om = record om {
  relay = some c;
  conn_id = conn_id;
  index = index;
  approved = approved;
}

abbrev pub in_place : Kind → OnlineMember → Option ℕ
in_place control om = om.control
in_place relay om = om.relay

abbrev pub kick_replaced : Option ℕ → Hub → Hub
kick_replaced none h = h
kick_replaced (some p) h = kick_at "duplicate connection" p h

-- The hub, the pointer of the new connection, and that of the one it replaces.
unfoldable pub attach : ℕ → String → String → String → Kind → ℕ → Bool → Hub → Hub × ℕ × Option ℕ
attach now sid mid conn_id kind index approved h =
    let r = room_or_new h sid in
    let (p, om) = online_or_new h r mid in
    let c = h.next_conn in
    let r' = record r {
      members = insert String_discrete mid p r.members;
      by_index = insert ℕ_discrete index p r.by_index;
    } in
    let h' = record h {
      rooms = insert String_discrete sid r' h.rooms;
      conns = update h.conns c (new_conn conn_id sid mid kind now);
      online = update h.online p (attached kind c conn_id index approved om);
      next_conn = suc h.next_conn;
      next_online = suc h.next_online;
    } in
    (kick_replaced (in_place kind om) h', c, in_place kind om)

abbrev pub points_to : Option ℕ → ℕ → Bool
points_to none p = false
points_to (some q) p = q == p

-- Only a current connection is taken out of its place.
abbrev pub detached : Kind → ℕ → OnlineMember → OnlineMember
detached control p om = if points_to om.control p then record om { control = none } else om
detached relay p om = if points_to om.relay p then record om { relay = none } else om

abbrev pub has_none : OnlineMember → Bool
has_none om = elim om.control [
  | some _ ↦ false
  | none ↦ elim om.relay [ some _ ↦ false | none ↦ true ]
]

abbrev pub is_empty {ℓ} : {A : Type ℓ} → List A → Bool
is_empty [] = true
is_empty (_ ∷ _) = false

-- A room with nobody in it is dropped.
abbrev pub keep_room : String → Room → Hub → Hub
keep_room sid r h =
    if is_empty r.members
    then record h { rooms = erase String_discrete sid h.rooms }
    else put_room sid r h

-- The hub, and the call of the offline hook if the member has no connection left.
unfoldable pub detach : ℕ → Hub → Hub × Option (String × String × String)
detach p h =
    let c = h.conns p in
    elim (room_at h c.session_id) [
      | none ↦ (h, none)
      | some r ↦ elim (lookup String_discrete c.member_id r.members) [
        | none ↦ (keep_room c.session_id r h, none)
        | some q ↦
            let om = detached c.kind p (h.online q) in
            let h' = record h { online = update h.online q om } in
            let left = record r {
              members = erase String_discrete c.member_id r.members;
              by_index = erase ℕ_discrete om.index r.by_index;
            } in
            if has_none om
            then (keep_room c.session_id left h', some (c.session_id, c.member_id, c.id))
            else (keep_room c.session_id r h', none)
      ]
    ]
