-- ===== src/Session/Idle.antt =====
-- When a session counts as idle.
use p2p_server.Base.{
  ℕ, ◌-◌, ◌≤◌, ◌<◌, ◌≡◌, refl, ◌≢◌, inl, inr, Bool, true, false, not, ◌&&◌, ◌||◌, List, [], ◌∷◌,
  ◌++◌, arith, sym, ltb, ◌==◌, if◌then◌else◌, All, Bool-cases,
}
use mathlib.Core.Path.{subst}
use p2p_server.Protocol.{is_active}
use p2p_server.Storage.{MemberRecord, SessionRecord, is_online}
use p2p_server.Session.{max_duration}
use p2p_server.Session.Prune.{idle_from, all_idle, is_idle}

-- An active member has gone offline, at a known time.
abbrev pub HasLeft : MemberRecord → Type 0
HasLeft m = is_active m.status ≡ true → (is_online m ≡ false) × (m.leave_at ≢ 0)

abbrev NotAfter : ℕ → MemberRecord → Type 0
NotAfter t m = is_active m.status ≡ true → t ≤ m.leave_at

idle_from-le :
    (rec : SessionRecord) (ms : List MemberRecord) (since : ℕ) (found : Bool)
    → found ≡ true
    → since ≢ 0
    → All HasLeft ms
    → (idle_from rec ms since found).1 ≤ since
unfolding idle_from
idle_from-le rec [] since found f n h = ground arith
idle_from-le rec (m ∷ ms) since found f n h = ground (
  arith,
  h.0,
  idle_from-le rec ms since found f n h.1,
  idle_from-le rec ms m.leave_at true refl,
  idle_from-le rec ms since true refl n h.1,
)

abbrev earliest : MemberRecord → ℕ → ℕ
earliest m since =
    if not (m.leave_at == 0) && ((since == 0) || ltb m.leave_at since) then m.leave_at else since

idle_from-skip :
    (rec : SessionRecord) (m : MemberRecord) (ms : List MemberRecord) (since : ℕ) (found : Bool)
    → is_active m.status ≡ false
    → idle_from rec ms since found ≡ idle_from rec (m ∷ ms) since found
unfolding idle_from
idle_from-skip rec m ms since found e = rw e

idle_from-left :
    (rec : SessionRecord) (m : MemberRecord) (ms : List MemberRecord) (since : ℕ) (found : Bool)
    → is_active m.status ≡ true
    → is_online m ≡ false
    → idle_from rec ms (earliest m since) true ≡ idle_from rec (m ∷ ms) since found
unfolding idle_from
idle_from-left rec m ms since found e o = rw (e, o)

abbrev Settled : List MemberRecord → Bool × ℕ → Type 0
Settled ms r = (r.0 ≡ true) × All (NotAfter r.1) ms

idle_from-All :
    (rec : SessionRecord) (ms : List MemberRecord) (since : ℕ) (found : Bool)
    → All HasLeft ms
    → Settled ms (idle_from rec ms since found)
unfolding idle_from
idle_from-All rec [] since found h = (ground arith, tt)
idle_from-All rec (m ∷ ms) since found h = elim (Bool-cases (is_active m.status)) [
  | inl act ↦
      let off = h.0 act in
      let ih = idle_from-All rec ms (earliest m since) true h.1 in
      let le = idle_from-le rec ms (earliest m since) true refl (ground (arith, off)) h.1 in
      subst (Settled (m ∷ ms)) (idle_from-left rec m ms since found act off.0)
        (ih.0, ((λ _. ground (arith, le, off)), ih.1))
  | inr inactive ↦
      let ih = idle_from-All rec ms since found h.1 in
      subst (Settled (m ∷ ms)) (idle_from-skip rec m ms since found inactive)
        (ih.0, ((λ a. ground (arith, a, inactive)), ih.1))
]

All-middle :
    (P : MemberRecord → Type 0) (pre : List MemberRecord) (m : MemberRecord)
    (post : List MemberRecord)
    → All P (pre ++ m ∷ post)
    → P m
All-middle P [] m post h = h.0
All-middle P (x ∷ pre) m post h = All-middle P pre m post h.1

-- Where all active members have left, at known times, one of them who has been away for longer
-- than the idle timeout makes the session idle, whatever the others' times are; the timeout is
-- positive and below the longest duration.
pub is_idle-earliest :
    (now : ℕ) (rec : SessionRecord) (pre post : List MemberRecord) (m : MemberRecord)
    → rec.members ≡ pre ++ m ∷ post
    → All HasLeft rec.members
    → is_active m.status ≡ true
    → 0 < rec.idle_timeout
    → rec.idle_timeout < max_duration
    → rec.idle_timeout < now - m.leave_at
    → is_idle now rec ≡ true
unfolding is_idle all_idle
is_idle-earliest now rec pre post m e off act some_timeout fits long =
    let all = idle_from-All rec rec.members 0 false off in
    let le =
      All-middle (NotAfter (idle_from rec rec.members 0 false).1) pre m post
        (subst (All (NotAfter (idle_from rec rec.members 0 false).1)) e all.1) act in
    ground (arith, all.0, le)

idle_from-online :
    (rec : SessionRecord) (pre post : List MemberRecord) (m : MemberRecord) (since : ℕ)
    (found : Bool)
    → is_active m.status ≡ true
    → is_online m ≡ true
    → (idle_from rec (pre ++ m ∷ post) since found).0 ≡ false
unfolding idle_from
idle_from-online rec [] post m since found act on = rw (act, on)
idle_from-online rec (x ∷ pre) post m since found act on = ground (
  arith,
  idle_from-online rec pre post m since found act on,
  idle_from-online rec pre post m since true act on,
  idle_from-online rec pre post m x.leave_at true act on,
)

-- A session with an active member online is never idle.
pub is_idle-online :
    (now : ℕ) (rec : SessionRecord) (pre post : List MemberRecord) (m : MemberRecord)
    → rec.members ≡ pre ++ m ∷ post
    → is_active m.status ≡ true
    → is_online m ≡ true
    → is_idle now rec ≡ false
unfolding is_idle all_idle
is_idle-online now rec pre post m e act on =
    let online = idle_from-online rec pre post m 0 false act on in
    let f = subst (λ ms. (idle_from rec ms 0 false).0 ≡ false) (sym e) online in ground (arith, f)
