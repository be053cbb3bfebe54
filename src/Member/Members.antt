-- ===== src/Member/Members.antt =====
-- internal/member/hub.go: the queries, and the changes of a member's approval.
use p2p_server.Base.{
  ℕ, ◌+◌, String, Bool, true, false, not, ◌&&◌, Option, none, some, List, [], ◌∷◌, ◌==◌, length,
  if◌then◌else◌, String_discrete, ℕ_discrete,
}
use p2p_server.Base.Dict.{lookup, insert, erase}
use p2p_server.Member.{Room, Hub, update, room_at, put_room}
use p2p_server.Member.Attach.{points_to}
use p2p_server.Member.Deliver.{online_at}

unfoldable pub lookup_index : String → String → Hub → Option ℕ
lookup_index sid mid h = elim (online_at h sid mid) [
  | none ↦ none
  | some om ↦ if om.approved then some om.index else none
]

unfoldable pub lookup_member_by_index : String → ℕ → Hub → Option String
lookup_member_by_index sid i h = elim (room_at h sid) [
  | none ↦ none
  | some r ↦ elim (lookup ℕ_discrete i r.by_index) [
    | none ↦ none
    | some p ↦ if (h.online p).approved then some (h.online p).member_id else none
  ]
]

unfoldable pub has_member : String → String → Hub → Bool
has_member sid mid h = elim (online_at h sid mid) [ none ↦ false | some _ ↦ true ]

unfoldable pub is_approved : String → String → Hub → Bool
is_approved sid mid h = elim (online_at h sid mid) [ none ↦ false | some om ↦ om.approved ]

unfoldable pub set_approved : String → String → Bool → Hub → Hub × Bool
set_approved sid mid approved h = elim (room_at h sid) [
  | none ↦ (h, false)
  | some r ↦ elim (lookup String_discrete mid r.members) [
    | none ↦ (h, false)
    | some p ↦ (
      record h { online = update h.online p (record (h.online p) { approved = approved }) },
      true,
    )
  ]
]

-- The old index is released only where it is the member's own.
abbrev pub release_index : ℕ → ℕ → ℕ → List (ℕ × ℕ) → List (ℕ × ℕ)
release_index old p index m =
    if points_to (lookup ℕ_discrete old m) p && not (old == index)
    then erase ℕ_discrete old m
    else m

unfoldable pub make_approved : String → String → ℕ → Hub → Hub × Bool
make_approved sid mid index h = elim (room_at h sid) [
  | none ↦ (h, false)
  | some r ↦ elim (lookup String_discrete mid r.members) [
    | none ↦ (h, false)
    | some p ↦
        let om = h.online p in
        let r' = record r {
          by_index = insert ℕ_discrete index p (release_index om.index p index r.by_index);
        } in
        (
          put_room sid r' (record h {
            online = update h.online p (record om { index = index; approved = true });
          }),
          true,
        )
  ]
]

-- `OnlineCount`
unfoldable pub online_count : String → Hub → ℕ
online_count sid h = elim (room_at h sid) [ none ↦ 0 | some r ↦ length r.members ]

-- `Stats`
pub record Stats : Type 0 where
  pub rooms : ℕ
  pub online_members : ℕ
  pub online_conns : ℕ
  pub dropped_frames : ℕ

abbrev count_conn : Hub → Option ℕ → Stats → Stats
count_conn h none st = st
count_conn h (some p) st = record st {
  online_conns = st.online_conns + 1;
  dropped_frames = st.dropped_frames + (h.conns p).dropped;
}

pub count_members : Hub → List (String × ℕ) → Stats → Stats
count_members h [] st = st
count_members h ((_, p) ∷ m) st = count_members h m (
    count_conn h (h.online p).relay
      (count_conn h (h.online p).control (record st { online_members = st.online_members + 1 })))

pub count_rooms : Hub → List (String × Room) → Stats → Stats
count_rooms h [] st = st
count_rooms h ((_, r) ∷ rs) st = count_rooms h rs (count_members h r.members st)

unfoldable pub stats : Hub → Stats
unfolding count_rooms count_members
stats h =
    count_rooms h h.rooms
      (record { rooms = length h.rooms; online_members = 0; online_conns = 0; dropped_frames = 0 })
