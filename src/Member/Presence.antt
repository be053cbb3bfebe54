-- ===== src/Member/Presence.antt =====
-- Who is found online after `Attach`.
use p2p_server.Base.{
  ℕ, suc, ◌<◌, ◌≡◌, refl, inl, inr, ap, ◌∙◌, String, Bool, true, Option, none, some, arith,
  if◌then◌else◌, Option-cases, String_discrete, ℕ_discrete,
}
use p2p_server.Base.Dict.{lookup, insert, lookup-insert_self}
use p2p_server.Member.{Kind, control, relay, OnlineMember, Room, Hub, update, room_at, new_conn}
use p2p_server.Member.Attach.{attach, room_or_new, attached, kick_replaced, online_or_new}
use p2p_server.Member.Members.{lookup_member_by_index, has_member, is_approved}

-- An entry of a room leads to a record of that member, allocated before.
pub record IsHub (h : Hub) : Type 0 where
  pub named :
      (sid : String) (r : Room) (mid : String) (p : ℕ)
      → room_at h sid ≡ some r
      → lookup String_discrete mid r.members ≡ some p
      → ((h.online p).member_id ≡ mid) × (p < h.next_online)

-- The room's two entries of a member lead to one record, which has its name and its approval.
pub record IsOnline (sid mid : String) (index : ℕ) (approved : Bool) (h : Hub) : Type 0 where
  pub room : Room
  pub pointer : ℕ
  pub room_found : room_at h sid ≡ some room
  pub member_found : lookup String_discrete mid room.members ≡ some pointer
  pub index_found : lookup ℕ_discrete index room.by_index ≡ some pointer
  pub member_named : (h.online pointer).member_id ≡ mid
  pub approval : (h.online pointer).approved ≡ approved

pub lookup-IsOnline :
    (sid mid : String) (index : ℕ) (approved : Bool) (h : Hub)
    → IsOnline sid mid index approved h
    → (has_member sid mid h ≡ true)
      × (is_approved sid mid h ≡ approved)
      × (lookup_member_by_index sid index h ≡ (if approved then some mid else none))
unfolding has_member is_approved lookup_member_by_index
lookup-IsOnline sid mid index approved h v =
    rw
      (
        has_member, is_approved, lookup_member_by_index, v.room_found, v.member_found,
        v.index_found, v.member_named, v.approval,
      )
      (refl, refl, refl)

kick_replaced-IsOnline :
    (sid mid : String) (index : ℕ) (approved : Bool) (o : Option ℕ) (h : Hub)
    → IsOnline sid mid index approved h
    → IsOnline sid mid index approved (kick_replaced o h)
kick_replaced-IsOnline sid mid index approved none h v = v
kick_replaced-IsOnline sid mid index approved (some p) h v = record {
  room = v.room;
  pointer = v.pointer;
  room_found = v.room_found;
  member_found = v.member_found;
  index_found = v.index_found;
  member_named = v.member_named;
  approval = v.approval;
}

pub attached-id :
    (kind : Kind) (c : ℕ) (id : String) (i : ℕ) (a : Bool) (om : OnlineMember)
    → ((attached kind c id i a om).member_id ≡ om.member_id)
      × ((attached kind c id i a om).approved ≡ a)
attached-id control c id i a om = (refl, refl)
attached-id relay c id i a om = (refl, refl)

pub update_self : {A : Type 0} → (h : ℕ → A) (k : ℕ) (v : A) → update h k v k ≡ v
update_self h k v = ground arith

-- What `attach` writes, before a connection that it replaces is closed.
entered :
    (now : ℕ) (sid mid conn_id : String) (kind : Kind) (index : ℕ) (approved : Bool) (h : Hub)
    (r : Room) (p : ℕ) (om : OnlineMember)
    → om.member_id ≡ mid
    → IsOnline sid mid index approved (record h {
      rooms =
          insert String_discrete sid
            (record r {
              members = insert String_discrete mid p r.members;
              by_index = insert ℕ_discrete index p r.by_index;
            })
            h.rooms;
      conns = update h.conns h.next_conn (new_conn conn_id sid mid kind now);
      online = update h.online p (attached kind h.next_conn conn_id index approved om);
      next_conn = suc h.next_conn;
      next_online = suc h.next_online;
    })
entered now sid mid conn_id kind index approved h r p om e =
    let om' = attached kind h.next_conn conn_id index approved om in
    record {
      room = record r {
        members = insert String_discrete mid p r.members;
        by_index = insert ℕ_discrete index p r.by_index;
      };
      pointer = p;
      room_found = lookup-insert_self String_discrete sid _ h.rooms;
      member_found = lookup-insert_self String_discrete mid p r.members;
      index_found = lookup-insert_self ℕ_discrete index p r.by_index;
      member_named =
          ap (λ o. o.member_id) (update_self h.online p om')
          ∙ (attached-id kind h.next_conn conn_id index approved om).0
          ∙ e;
      approval =
          ap (λ o. o.approved) (update_self h.online p om')
          ∙ (attached-id kind h.next_conn conn_id index approved om).1;
    }

online_in-named :
    (mid : String) (r : Room) (h : Hub)
    → ((p : ℕ) → lookup String_discrete mid r.members ≡ some p → (h.online p).member_id ≡ mid)
    → (online_or_new h r mid).1.member_id ≡ mid
online_in-named mid r h named = elim (Option-cases (lookup String_discrete mid r.members)) [
  | inl e ↦ rw (online_or_new, e) refl
  | inr (p, e) ↦ rw (online_or_new, e) (named p e)
]

pub online_or_new-named :
    (sid mid : String) (h : Hub)
    → IsHub h
    → (online_or_new h (room_or_new h sid) mid).1.member_id ≡ mid
unfolding lookup
online_or_new-named sid mid h v = elim (Option-cases (room_at h sid)) [
  | inl e ↦ rw (room_or_new, e) refl
  | inr (r, e) ↦ rw (room_or_new, e) (online_in-named mid r h (λ p f. (v.named sid r mid p e f).0))
]

attach-IsOnline :
    (now : ℕ) (sid mid conn_id : String) (kind : Kind) (index : ℕ) (approved : Bool) (h : Hub)
    → IsHub h
    → IsOnline sid mid index approved (attach now sid mid conn_id kind index approved h).0
unfolding attach
attach-IsOnline now sid mid conn_id kind index approved h v =
    kick_replaced-IsOnline sid mid index approved _ _ (
      entered now sid mid conn_id kind index approved h r o.0 o.1 (online_or_new-named sid mid h v))
  where
    r : Room
    r = room_or_new h sid

    o : ℕ × OnlineMember
    o = online_or_new h r mid

-- A member who attaches to a hub that keeps its invariant is online with the approval that was
-- given, and is found by its index if that is granted; nobody is found by the index otherwise.
pub attach-lookup :
    (now : ℕ) (sid mid conn_id : String) (kind : Kind) (index : ℕ) (approved : Bool) (h : Hub)
    → IsHub h
    → let h' = (attach now sid mid conn_id kind index approved h).0 in
      (has_member sid mid h' ≡ true)
      × (is_approved sid mid h' ≡ approved)
      × (lookup_member_by_index sid index h' ≡ (if approved then some mid else none))
attach-lookup now sid mid conn_id kind index approved h v =
    lookup-IsOnline sid mid index approved _
      (attach-IsOnline now sid mid conn_id kind index approved h v)
