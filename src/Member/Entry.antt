-- ===== src/Member/Entry.antt =====
-- The hub's invariant under `Attach`.
use mathlib.Core.Path.{subst}
use p2p_server.Base.{
  ℕ, suc, ◌<◌, ◌≡◌, refl, ◌⊎◌, inl, inr, ap, sym, ◌∙◌, String, Bool, true, false, Option, none,
  some, arith, ◌==◌, Option-cases, String_discrete, ℕ_discrete,
}
use p2p_server.Base.Dict.{lookup, insert, lookup-insert_cases}
use p2p_server.Member.{Kind, OnlineMember, Room, Hub, update, room_at, new_conn}
use p2p_server.Member.Attach.{attach, room_or_new, attached, kick_replaced, online_or_new, in_place}
use p2p_server.Member.Presence.{IsHub, attached-id, update_self, online_or_new-named}

-- The write to a member leaves the names of those that were there.
update-named :
    (h : Hub) (p : ℕ) (om om' : OnlineMember) (mid : String) (q : ℕ)
    → (p ≡ h.next_online) ⊎ (om ≡ h.online p)
    → om'.member_id ≡ om.member_id
    → ((h.online q).member_id ≡ mid) × (q < h.next_online)
    → ((update h.online p om' q).member_id ≡ mid) × (q < suc h.next_online)
update-named h p om om' mid q old same_name (name, low) = elim (ℕ_discrete p q) [
  | no n ↦
      let differs : (p == q) ≡ false = ground (arith, n) in (rw differs name, omega (arith, low))
  | yes e ↦ elim old [
    | inl fresh ↦ absurd (omega (arith, fresh, e, low))
    | inr there ↦
        let hit : (p == q) ≡ true = ground (arith, e) in
        (
          rw hit (
              same_name
              ∙ ap (λ (o : OnlineMember). o.member_id) there
              ∙ ap (λ k. (h.online k).member_id) e
              ∙ name),
          omega (arith, low),
        )
  ]
]

room_or_new-named :
    (sid mid : String) (h : Hub) (q : ℕ)
    → IsHub h
    → lookup String_discrete mid (room_or_new h sid).members ≡ some q
    → ((h.online q).member_id ≡ mid) × (q < h.next_online)
unfolding lookup
room_or_new-named sid mid h q v = elim (Option-cases (room_at h sid)) [
  | inl e ↦ rw (room_or_new, e) (λ f. absurd (ground (arith, f)))
  | inr (r, e) ↦ rw (room_or_new, e) (λ f. v.named sid r mid q e f)
]

online_or_new-old :
    (sid mid : String) (h : Hub)
    → IsHub h
    → let o = online_or_new h (room_or_new h sid) mid in
      (o.0 < suc h.next_online) × ((o.0 ≡ h.next_online) ⊎ (o.1 ≡ h.online o.0))
online_or_new-old sid mid h v =
    elim (Option-cases (lookup String_discrete mid (room_or_new h sid).members)) [
      | inl e ↦ rw (online_or_new, e) (omega arith, inl refl)
      | inr (p, e) ↦
          let low = (room_or_new-named sid mid h p v e).1 in
          rw (online_or_new, e) (omega (arith, low), inr refl)
    ]

kick_replaced-IsHub : (o : Option ℕ) (h : Hub) → IsHub h → IsHub (kick_replaced o h)
kick_replaced-IsHub none h v = v
kick_replaced-IsHub (some p) h v = record { named = v.named }

-- `Attach` keeps the hub's invariant: each entry of a room leads to an allocated record with the
-- member's name.
pub attach-IsHub :
    (now : ℕ) (sid mid conn_id : String) (kind : Kind) (index : ℕ) (approved : Bool) (h : Hub)
    → IsHub h
    → IsHub (attach now sid mid conn_id kind index approved h).0
unfolding attach
attach-IsHub now sid mid conn_id kind index approved h v =
    kick_replaced-IsHub (in_place kind o.1) after_entry (record { named = entry })
  where
    r : Room
    r = room_or_new h sid

    o : ℕ × OnlineMember
    o = online_or_new h r mid

    om' : OnlineMember
    om' = attached kind h.next_conn conn_id index approved o.1

    name : om'.member_id ≡ o.1.member_id
    name = (attached-id kind h.next_conn conn_id index approved o.1).0

    kept :
        (mid' : String) (q : ℕ)
        → ((h.online q).member_id ≡ mid') × (q < h.next_online)
        → ((update h.online o.0 om' q).member_id ≡ mid') × (q < suc h.next_online)
    kept mid' q = update-named h o.0 o.1 om' mid' q (online_or_new-old sid mid h v).1 name

    room_after : Room
    room_after = record r {
      members = insert String_discrete mid o.0 r.members;
      by_index = insert ℕ_discrete index o.0 r.by_index;
    }

    after_entry : Hub
    after_entry = record h {
      rooms = insert String_discrete sid room_after h.rooms;
      conns = update h.conns h.next_conn (new_conn conn_id sid mid kind now);
      online = update h.online o.0 om';
      next_conn = suc h.next_conn;
      next_online = suc h.next_online;
    }

    member_entry :
        (mid' : String) (q : ℕ)
        → lookup String_discrete mid' room_after.members ≡ some q
        → ((update h.online o.0 om' q).member_id ≡ mid') × (q < suc h.next_online)
    member_entry mid' q f = elim (lookup-insert_cases String_discrete mid mid' o.0 q r.members f) [
      | inr (_, f') ↦ kept mid' q (room_or_new-named sid mid' h q v f')
      | inl (m, p) ↦ (
        ap (λ k. (update h.online o.0 om' k).member_id) p
            ∙ ap (λ (t : OnlineMember). t.member_id) (update_self h.online o.0 om')
            ∙ name
            ∙ online_or_new-named sid mid h v
            ∙ m,
        subst (λ k. k < suc h.next_online) (sym p) (online_or_new-old sid mid h v).0,
      )
    ]

    entry :
        (sid' : String) (r' : Room) (mid' : String) (q : ℕ)
        → room_at after_entry sid' ≡ some r'
        → lookup String_discrete mid' r'.members ≡ some q
        → ((update h.online o.0 om' q).member_id ≡ mid') × (q < suc h.next_online)
    entry sid' r' mid' q e f =
        elim (lookup-insert_cases String_discrete sid sid' room_after r' h.rooms e) [
          | inr (_, e') ↦ kept mid' q (v.named sid' r' mid' q e' f)
          | inl (_, e') ↦
              member_entry mid' q
                (subst (λ (t : Room). lookup String_discrete mid' t.members ≡ some q) e' f)
        ]
