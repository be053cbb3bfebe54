-- ===== src/Storage/Capacity.antt =====
-- The cap on active members, under `Join`.
use p2p_server.Base.{
  ℕ, ◌+◌, ◌≤◌, ◌<◌, ◌≡◌, ◌⊎◌, inl, inr, sym, Bool, true, false, List, [], ◌∷◌, some, ok, arith,
  Option-cases, if◌then◌else◌,
}
use mathlib.Core.Path.{subst}
use p2p_server.Base.Search.{find, modify, count, count-append}
use p2p_server.Protocol.{is_active}
use p2p_server.Storage.{
  Env, MemberRecord, SessionRecord, JoinRequest, JoinOutcome, has_node_id, member_by_node_id,
  active_members,
}
use p2p_server.Storage.Admission.{revive, rejoin, new_member, must_wait, admitted, join_session}
use p2p_server.Storage.Invariant.{admit_ok, rejoin_ok}

-- The active members are within the cap, where the session has one.
abbrev pub IsWithin : SessionRecord → Type 0
IsWithin s = (s.max_members ≡ 0) ⊎ (active_members s ≤ s.max_members)

abbrev active : MemberRecord → Bool
active m = is_active m.status

-- The count after a write to the member found, by its status before and after.
pub count-modify :
    (p : MemberRecord → Bool) (f : MemberRecord → MemberRecord) (ms : List MemberRecord)
    (c : MemberRecord)
    → find p ms ≡ some c
    → count active (modify p f ms) + (if active c then 1 else 0)
      ≡ count active ms + (if active (f c) then 1 else 0)
unfolding find modify count
count-modify p f [] c e = cc
count-modify p f (m ∷ ms) c e = ground (arith, count-modify p f ms c)

-- A write that does not make an inactive member active.
pub count-modify-le :
    (p : MemberRecord → Bool) (f : MemberRecord → MemberRecord) (ms : List MemberRecord)
    (c : MemberRecord)
    → find p ms ≡ some c
    → (active c ≡ true) ⊎ (active (f c) ≡ false)
    → count active (modify p f ms) ≤ count active ms
count-modify-le p f ms c e h = ground (arith, count-modify p f ms c e)

admitted-IsWithin :
    (env : Env) (req : JoinRequest) (now : ℕ) (rec : SessionRecord)
    → (must_wait rec ≡ true) ⊎ ((rec.max_members ≡ 0) ⊎ (active_members rec < rec.max_members))
    → IsWithin rec
    → IsWithin (admitted env req now rec).session
unfolding admitted new_member count
admitted-IsWithin env req now rec h v =
    let n = new_member env req now rec (must_wait rec) in
    ground (arith, count-append active rec.members (n ∷ []))

rejoin-IsWithin :
    (req : JoinRequest) (now : ℕ) (rec : SessionRecord) (m : MemberRecord)
    → member_by_node_id rec req.node_id ≡ some m
    → (active m ≡ true) ⊎ (rec.require_approval ≡ true)
    → IsWithin rec
    → IsWithin (rejoin req now rec m).session
unfolding rejoin revive
rejoin-IsWithin req now rec m e h v =
    ground (arith, count-modify (has_node_id req.node_id) (revive rec req now) rec.members m e)

-- A join of a session whose active members are within its cap leaves them within it, if the node
-- is new to the session, or its member is active, or the session asks for approval.
pub join_session-IsWithin :
    (env : Env) (req : JoinRequest) (now : ℕ) (rec : SessionRecord) (out : JoinOutcome)
    → join_session env req now rec ≡ ok out
    → ((m : MemberRecord)
        → member_by_node_id rec req.node_id ≡ some m
        → (active m ≡ true) ⊎ (rec.require_approval ≡ true))
    → IsWithin rec
    → IsWithin out.session
unfolding join_session
join_session-IsWithin env req now rec out e known v =
    elim (Option-cases (member_by_node_id rec req.node_id)) [
      | inl new ↦
          let a = admit_ok env req now rec out (rw (new, join_session) at e) in
          subst (λ (o : JoinOutcome). IsWithin o.session) (sym a.4)
            (admitted-IsWithin env req now rec a.2 v)
      | inr (m, old) ↦
          subst (λ (o : JoinOutcome). IsWithin o.session) (rejoin_ok env req now rec out m old e)
            (rejoin-IsWithin req now rec m old (known m old) v)
    ]

-- In a session at its cap that asks for no approval, a member who was not active comes back as
-- active, and the active members are then one more than the cap.
pub rejoin-exceeds :
    (req : JoinRequest) (now : ℕ) (rec : SessionRecord) (m : MemberRecord)
    → member_by_node_id rec req.node_id ≡ some m
    → active m ≡ false
    → rec.require_approval ≡ false
    → active_members rec ≡ rec.max_members
    → active_members (rejoin req now rec m).session ≡ rec.max_members + 1
unfolding rejoin revive
rejoin-exceeds req now rec m e inactive open_door at_cap =
    ground (arith, count-modify (has_node_id req.node_id) (revive rec req now) rec.members m e)
