-- ===== src/Relay/Admission.antt =====
-- Which frames the relay takes.
use p2p_server.Base.{
  ℕ, ◌≤◌, ◌≡◌, inl, inr, String, true, some, List, ok, arith, ltb, length, Option-cases,
  Result-cases, Bool-cases,
}
use p2p_server.Protocol.Frame.{Frame, parse_frame}
use p2p_server.Relay.{Membership, Forwarder, forward}

module _ (memb : Membership) (sid sender : String) where
  -- A frame is answered with a number of receivers only if its sender is an active member with an
  -- index and it parses with a payload within the limit.
  pub forward_ok :
      (raw : List ℕ) (f : Forwarder) (n : ℕ)
      → (forward memb sid sender raw f).1 ≡ ok n
      → (memb.is_active_member sid sender ≡ true)
        × (i : ℕ) × (memb.member_index sid sender ≡ some i)
        × (fr : Frame) × (parse_frame raw ≡ ok fr)
        × (length fr.payload ≤ f.max_frame)
  unfolding forward
  forward_ok raw f n e = elim (Bool-cases (memb.is_active_member sid sender)) [
    | inr a ↦ absurd (ground (arith, a, e))
    | inl a ↦ elim (Option-cases (memb.member_index sid sender)) [
      | inl b ↦ absurd (ground (arith, a, b, e))
      | inr (i, b) ↦ elim (Result-cases (parse_frame raw)) [
        | inr (x, c) ↦ absurd (ground (arith, a, b, c, e))
        | inl (fr, c) ↦ elim (Bool-cases (ltb f.max_frame (length fr.payload))) [
          | inl d ↦ absurd (ground (arith, a, b, c, d, e))
          | inr d ↦ (a, i, b, fr, c, ground (arith, d))
        ]
      ]
    ]
  ]
