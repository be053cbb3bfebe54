-- ===== src/Storage/Invariant/Writes.antt =====
-- The store's invariant under the operations on one session that leave its code.
use p2p_server.Base.{
  ℕ, ◌≡◌, refl, inl, inr, sym, String, true, false, some, ok, arith, Option-cases, Result-cases,
}
use mathlib.Core.Path.{subst}
use p2p_server.Base.Search.{find_holds, modify, remove_first}
use p2p_server.Storage.{
  Env, MemberRecord, SessionRecord, JoinRequest, JoinOutcome, has_id, member_by_id, is_expired,
}
use p2p_server.Storage.Admission.{rejoin, admit, admitted, join_session}
use p2p_server.Storage.Invariant.{
  join_session-IsSession, modify-AreMembers, remove_first-AreMembers,
}
use p2p_server.Storage.Invariant.Stored.{session_at, IsStore, put_session-IsStore}
use p2p_server.Storage.Memory.{
  MemoryStore, or_now, put_session, join, update_member, remove_member, mark_offline, go_offline,
  revoke, close,
}

-- A session and one of its members, both found.
abbrev Found : MemoryStore → String → String → (SessionRecord → MemberRecord → Type 0) → Type 0
Found s sid mid P =
    (rec : SessionRecord) × (c : MemberRecord) × (session_at s sid ≡ some rec)
    × (member_by_id rec mid ≡ some c)
    × P rec c

update_member_ok :
    (env : Env) (sid : String) (m : MemberRecord) (s s' : MemoryStore)
    → update_member env sid m s ≡ ok s'
    → Found s sid m.id λ rec c.
      s' ≡ put_session sid (record rec { members = modify (has_id m.id) (λ _. m) rec.members }) s
unfolding update_member
update_member_ok env sid m s s' h = elim (Option-cases (session_at s sid)) [
  | inl e ↦ absurd (ground (arith, e, h))
  | inr (rec, e) ↦ elim (Option-cases (member_by_id rec m.id)) [
    | inl f ↦ absurd (ground (arith, e, f, h))
    | inr (c, f) ↦ (rec, c, e, f, ground (arith, e, f, h))
  ]
]

remove_member_ok :
    (env : Env) (sid mid : String) (s s' : MemoryStore)
    → remove_member env sid mid s ≡ ok s'
    → Found s sid mid λ rec c.
      s' ≡ put_session sid (record rec { members = remove_first (has_id mid) rec.members }) s
unfolding remove_member
remove_member_ok env sid mid s s' h = elim (Option-cases (session_at s sid)) [
  | inl e ↦ absurd (ground (arith, e, h))
  | inr (rec, e) ↦ elim (Option-cases (member_by_id rec mid)) [
    | inl f ↦ absurd (ground (arith, e, f, h))
    | inr (c, f) ↦ (rec, c, e, f, ground (arith, e, f, h))
  ]
]

mark_offline_ok :
    (env : Env) (sid mid conn : String) (now : ℕ) (s s' : MemoryStore)
    → mark_offline env sid mid conn now s ≡ ok s'
    → Found s sid mid λ rec c.
      s'
      ≡ put_session sid
          (record rec { members = modify (has_id mid) (go_offline (or_now env now)) rec.members })
          s
unfolding mark_offline
mark_offline_ok env sid mid conn now s s' h = elim (Option-cases (session_at s sid)) [
  | inl e ↦ absurd (ground (arith, e, h))
  | inr (rec, e) ↦ elim (Option-cases (member_by_id rec mid)) [
    | inl f ↦ absurd (ground (arith, e, f, h))
    | inr (c, f) ↦ (rec, c, e, f, ground (arith, e, f, h))
  ]
]

join_ok :
    (env : Env) (sid : String) (req : JoinRequest) (s s' : MemoryStore) (out : JoinOutcome)
    → join env sid req s ≡ ok (out, s')
    → (rec : SessionRecord) × (session_at s sid ≡ some rec)
      × (rec.closed ≡ false)
      × (is_expired rec (or_now env req.now) ≡ false)
      × (join_session env req (or_now env req.now) rec ≡ ok out)
      × (s' ≡ put_session sid out.session s)
unfolding join
join_ok env sid req s s' out h = elim (Option-cases (session_at s sid)) [
  | inl e ↦ absurd (ground (arith, e, h))
  | inr (rec, e) ↦ elim (Result-cases (join_session env req (or_now env req.now) rec)) [
    | inl (o, f) ↦ (rec, e, ground arith, ground arith, ground arith, ground arith)
    | inr (x, f) ↦ absurd (ground (arith, e, f, h))
  ]
]

found_id :
    (mid : String) (rec : SessionRecord) (c : MemberRecord)
    → member_by_id rec mid ≡ some c
    → c.id ≡ mid
found_id mid rec c e = ground (arith, find_holds (has_id mid) rec.members c e)

-- `Join` leaves the session's ID and code.
join_session-frame :
    (env : Env) (req : JoinRequest) (now : ℕ) (rec : SessionRecord) (out : JoinOutcome)
    → join_session env req now rec ≡ ok out
    → (out.session.id ≡ rec.id) × (out.session.join_code ≡ rec.join_code)
unfolding join_session admit admitted rejoin
join_session-frame env req now rec out e = ground arith

module _ (s s' : MemoryStore) (v : IsStore s) where
  -- Replacing a member by one of the same node and index.
  pub update_member-IsStore :
      (env : Env) (sid : String) (m : MemberRecord)
      → ((rec : SessionRecord) (c : MemberRecord)
          → session_at s sid ≡ some rec
          → member_by_id rec m.id ≡ some c
          → (m.node_id ≡ c.node_id) × (m.index ≡ c.index))
      → update_member env sid m s ≡ ok s'
      → IsStore s'
  update_member-IsStore env sid m same_place h =
      let (rec, c, e, f, q) = update_member_ok env sid m s s' h in
      let keeps = same_place rec c e f in
      let w = (v.sessions sid rec e).0 in
      let named : m.id ≡ c.id = sym (found_id m.id rec c f) in
      subst IsStore (sym q) (
        put_session-IsStore s sid rec _ e
          (record {
            members = modify-AreMembers _ _ rec.members c f named keeps.0 keeps.1 w.members;
            joins = w.joins;
          })
          refl refl v)

  pub remove_member-IsStore :
      (env : Env) (sid mid : String) → remove_member env sid mid s ≡ ok s' → IsStore s'
  remove_member-IsStore env sid mid h =
      let (rec, c, e, f, q) = remove_member_ok env sid mid s s' h in
      let w = (v.sessions sid rec e).0 in
      subst IsStore (sym q) (
        put_session-IsStore s sid rec _ e
          (record { members = remove_first-AreMembers _ rec.members w.members; joins = w.joins })
          refl refl v)

  pub mark_offline-IsStore :
      (env : Env) (sid mid conn : String) (now : ℕ)
      → mark_offline env sid mid conn now s ≡ ok s'
      → IsStore s'
  unfolding go_offline
  mark_offline-IsStore env sid mid conn now h =
      let (rec, c, e, f, q) = mark_offline_ok env sid mid conn now s s' h in
      let w = (v.sessions sid rec e).0 in
      subst IsStore (sym q) (
        put_session-IsStore s sid rec _ e
          (record {
            members = modify-AreMembers _ _ rec.members c f refl refl refl w.members;
            joins = w.joins;
          })
          refl refl v)

  pub join-IsStore :
      (env : Env) (sid : String) (req : JoinRequest) (out : JoinOutcome)
      → join env sid req s ≡ ok (out, s')
      → IsStore s'
  join-IsStore env sid req out h =
      let (rec, e, _, _, j, q) = join_ok env sid req s s' out h in
      let frame = join_session-frame env req (or_now env req.now) rec out j in
      subst IsStore (sym q) (
        put_session-IsStore s sid rec out.session e
          (join_session-IsSession env req (or_now env req.now) rec out j (v.sessions sid rec e).0)
          frame.0 frame.1 v)

  pub revoke-IsStore :
      (env : Env) (sid : String) (now : ℕ) → revoke env sid now s ≡ ok s' → IsStore s'
  unfolding revoke
  revoke-IsStore env sid now h = elim (Option-cases (session_at s sid)) [
    | inl e ↦ absurd (ground (arith, e, h))
    | inr (rec, e) ↦
        let w = (v.sessions sid rec e).0 in
        let q : put_session sid (record rec { revoked = true }) s ≡ s' = ground (arith, e, h) in
        subst IsStore q (
          put_session-IsStore s sid rec _ e (record { members = w.members; joins = w.joins }) refl
            refl v)
  ]

  pub close-IsStore : (env : Env) (sid : String) → close env sid s ≡ ok s' → IsStore s'
  unfolding close
  close-IsStore env sid h = elim (Option-cases (session_at s sid)) [
    | inl e ↦ absurd (ground (arith, e, h))
    | inr (rec, e) ↦
        let w = (v.sessions sid rec e).0 in
        let q : put_session sid (record rec { closed = true }) s ≡ s' = ground (arith, e, h) in
        subst IsStore q (
          put_session-IsStore s sid rec _ e (record { members = w.members; joins = w.joins }) refl
            refl v)
  ]
