-- ===== src/Member/Departure.antt =====
-- What `Detach` leaves under the index of a member who has gone.
use p2p_server.Base.{
  ℕ, ◌≡◌, refl, inl, inr, ap, ◌∙◌, String, true, none, some, arith, Bool-cases, String_discrete,
  ℕ_discrete,
}
use p2p_server.Base.Dict.{lookup, erase, lookup-erase, lookup-insert_self, lookup-erase_self}
use p2p_server.Member.{Kind, control, relay, OnlineMember, Room, Hub, update, room_at}
use p2p_server.Member.Attach.{detach, detached, has_none, points_to, keep_room, is_empty}
use p2p_server.Member.Members.{lookup_member_by_index}

detached-index : (kind : Kind) (p : ℕ) (om : OnlineMember) → (detached kind p om).index ≡ om.index
detached-index control p om = elim (Bool-cases (points_to om.control p)) [
  | inl e ↦ rw e refl
  | inr e ↦ rw e refl
]
detached-index relay p om = elim (Bool-cases (points_to om.relay p)) [
  | inl e ↦ rw e refl
  | inr e ↦ rw e refl
]

keep_room-lookup_index :
    (sid : String) (i : ℕ) (r : Room) (h : Hub)
    → lookup ℕ_discrete i r.by_index ≡ none
    → lookup_member_by_index sid i (keep_room sid r h) ≡ none
unfolding lookup_member_by_index
keep_room-lookup_index sid i r h e = elim (Bool-cases (is_empty r.members)) [
  | inl empty ↦
      rw (empty, lookup_member_by_index, lookup-erase_self String_discrete sid h.rooms) refl
  | inr full ↦
      rw (full, lookup_member_by_index, lookup-insert_self String_discrete sid r h.rooms, e) refl
]

detached_room :
    (p q : ℕ) (r : Room) (h : Hub)
    → room_at h (h.conns p).session_id ≡ some r
    → lookup String_discrete (h.conns p).member_id r.members ≡ some q
    → has_none (detached (h.conns p).kind p (h.online q)) ≡ true
    → let om = detached (h.conns p).kind p (h.online q) in
      detach p h ≡ (
        keep_room
            (h.conns p).session_id
            (record r {
              members = erase String_discrete (h.conns p).member_id r.members;
              by_index = erase ℕ_discrete om.index r.by_index;
            })
            (record h { online = update h.online q om }),
        some ((h.conns p).session_id, (h.conns p).member_id, (h.conns p).id),
      )
unfolding detach
detached_room p q r h e e' n = rw (detach, e, e', n) refl

-- When the last connection of a member closes, nobody is found by the index it held, whomever the
-- room's index led to.
pub detach-lookup_index :
    (p q : ℕ) (r : Room) (h : Hub)
    → room_at h (h.conns p).session_id ≡ some r
    → lookup String_discrete (h.conns p).member_id r.members ≡ some q
    → has_none (detached (h.conns p).kind p (h.online q)) ≡ true
    → lookup_member_by_index (h.conns p).session_id (h.online q).index (detach p h).0 ≡ none
detach-lookup_index p q r h e e' n =
    let om = detached (h.conns p).kind p (h.online q) in
    let left : Room = record r {
      members = erase String_discrete (h.conns p).member_id r.members;
      by_index = erase ℕ_discrete om.index r.by_index;
    } in
    let h' : Hub = record h { online = update h.online q om } in
    ap (λ o. lookup_member_by_index (h.conns p).session_id (h.online q).index o.0)
      (detached_room p q r h e e' n)
    ∙ keep_room-lookup_index (h.conns p).session_id (h.online q).index left h' (
        ground (
          arith,
          lookup-erase ℕ_discrete om.index (h.online q).index r.by_index,
          detached-index (h.conns p).kind p (h.online q),
        ))
