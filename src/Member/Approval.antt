-- ===== src/Member/Approval.antt =====
-- Who is found after `MakeApproved`.
use p2p_server.Base.{
  ℕ, ◌≡◌, inl, inr, ap, ◌∙◌, String, true, some, arith, Option-cases, String_discrete, ℕ_discrete,
}
use p2p_server.Base.Dict.{lookup, insert, lookup-insert_self}
use p2p_server.Member.{OnlineMember, Room, Hub, room_at}
use p2p_server.Member.Members.{
  has_member, is_approved, lookup_member_by_index, make_approved, release_index,
}
use p2p_server.Member.Presence.{IsHub, IsOnline, lookup-IsOnline, update_self}

make_approved-IsOnline :
    (sid mid : String) (index : ℕ) (h : Hub)
    → IsHub h
    → (make_approved sid mid index h).1 ≡ true
    → IsOnline sid mid index true (make_approved sid mid index h).0
unfolding make_approved
make_approved-IsOnline sid mid index h v e = elim (Option-cases (room_at h sid)) [
  | inl f ↦ absurd (ground (arith, f, e))
  | inr (r, f) ↦ elim (Option-cases (lookup String_discrete mid r.members)) [
    | inl g ↦ absurd (ground (arith, f, g, e))
    | inr (p, g) ↦
        let om : OnlineMember = record (h.online p) { index = index; approved = true } in
        let r' : Room = record r {
          by_index =
              insert ℕ_discrete index p (release_index (h.online p).index p index r.by_index);
        } in
        rw (make_approved, f, g)
          (record {
            room = r';
            pointer = p;
            room_found = lookup-insert_self String_discrete sid r' h.rooms;
            member_found = g;
            index_found =
                lookup-insert_self ℕ_discrete index p
                  (release_index (h.online p).index p index r.by_index);
            member_named =
                ap (λ (o : OnlineMember). o.member_id) (update_self h.online p om)
                ∙ (v.named sid r mid p f g).0;
            approval = ap (λ (o : OnlineMember). o.approved) (update_self h.online p om);
          })
  ]
]

-- A member who was online when `MakeApproved` approved it is approved, and found by the index given,
-- in a hub that keeps its invariant.
pub make_approved-lookup :
    (sid mid : String) (index : ℕ) (h : Hub)
    → IsHub h
    → (make_approved sid mid index h).1 ≡ true
    → let h' = (make_approved sid mid index h).0 in
      (has_member sid mid h' ≡ true)
      × (is_approved sid mid h' ≡ true)
      × (lookup_member_by_index sid index h' ≡ some mid)
make_approved-lookup sid mid index h v e =
    lookup-IsOnline sid mid index true (make_approved sid mid index h).0
      (make_approved-IsOnline sid mid index h v e)
