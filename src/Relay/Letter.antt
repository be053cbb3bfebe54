-- ===== src/Relay/Letter.antt =====
-- The frames that the relay may deliver to a member, and how it makes them.
use mathlib.Core.Path.{subst}
use p2p_server.Base.{
  ℕ, ◌+◌, ◌<◌, ◌≡◌, refl, ◌≢◌, ◌⊎◌, inl, inr, String, true, false, some, List, [], ◌∷◌, ok, ◌>>=◌,
  arith, if◌then◌else◌, Option-cases, Result-cases,
}
use p2p_server.Protocol.Frame.{Frame, encode_frame, parse_frame}
use p2p_server.Protocol.Frame.RoundTrip.{IsFrame, parse_frame-encode_frame}
use p2p_server.Member.{Hub, binary}
use p2p_server.Member.Deliver.{deliver}
use p2p_server.Member.Members.{lookup_member_by_index}
use p2p_server.Relay.{Membership, target, forward_one}

module _ (memb : Membership) (sid sender : String) where
  -- A frame that may go to a member: it is another active member's, and the bytes are a frame to one
  -- index, with the source and the payload given.
  pub record IsLetter (src : ℕ) (payload : List ℕ) (t : String) (out : List ℕ) : Type 0 where
    pub others : t ≢ sender
    pub active : memb.is_active_member sid t ≡ true
    pub frame : Frame
    pub parsed : parse_frame out ≡ ok frame
    pub source : frame.src_index ≡ src
    pub carried : frame.payload ≡ payload

  -- Deliveries of such frames one after the other, and how many of them found a queue with room.
  pub data Sends (src : ℕ) (payload : List ℕ) : Hub → Hub → ℕ → Type 0 where
    done : {h : Hub} → Sends src payload h h 0
    send :
        {h h' : Hub} {n : ℕ} (t : String) (out : List ℕ)
        → IsLetter src payload t out
        → Sends src payload (deliver sid t (binary out) h).0 h' n
        → Sends src payload h h' (if (deliver sid t (binary out) h).1 then n + 1 else n)

  target-some :
      (i : ℕ) (h : Hub) (t : String)
      → target memb sid sender i h ≡ some t
      → (t ≢ sender) × (memb.is_active_member sid t ≡ true)
  unfolding target
  target-some i h t e = elim (Option-cases (lookup_member_by_index sid i h)) [
    | inl f ↦ absurd (ground (arith, e, f))
    | inr (u, f) ↦ ground (arith, e, f)
  ]

  pub letter :
      (src i : ℕ) (fr : Frame) (h : Hub) (t : String) (out : List ℕ)
      → IsFrame fr
      → fr.src_index ≡ src
      → target memb sid sender i h ≡ some t
      → encode_frame fr ≡ ok out
      → IsLetter src fr.payload t out
  letter src i fr h t out v s e o =
      let (differs, act) = target-some i h t e in
      record {
        others = differs;
        active = act;
        frame = fr;
        parsed = subst (λ r. (r >>= parse_frame) ≡ ok fr) o (parse_frame-encode_frame fr v);
        source = s;
        carried = refl;
      }

  -- A frame in range can be encoded.
  pub encodes : (fr : Frame) → IsFrame fr → (out : List ℕ) × (encode_frame fr ≡ ok out)
  encodes fr v = elim (Result-cases (encode_frame fr)) [
    | inl r ↦ r
    | inr (x, e) ↦
        absurd (
          ground
            (arith, subst (λ r. (r >>= parse_frame) ≡ ok fr) e (parse_frame-encode_frame fr v)))
  ]

  to_one : Frame → ℕ → Frame
  to_one fr i = record fr { dst_type = 1; dst = i ∷ [] }

  to_one-IsFrame : (fr : Frame) (i : ℕ) → IsFrame fr → i < 65536 → IsFrame (to_one fr i)
  unfolding to_one
  to_one-IsFrame fr i v r = record {
    src = v.src;
    stream = v.stream;
    seq = v.seq;
    dsts = (r, tt);
    addressed = ground arith;
    broadcast = λ e. absurd (ground arith);
  }

  pub forward_one-cases :
      (fr : Frame) (i : ℕ) (h : Hub)
      → IsFrame fr
      → i < 65536
      → (forward_one memb sid sender fr i h ≡ (h, false))
        ⊎ ((t : String) × (out : List ℕ) × IsLetter fr.src_index fr.payload t out
            × (forward_one memb sid sender fr i h ≡ deliver sid t (binary out) h))
  unfolding forward_one to_one
  forward_one-cases fr i h v r = elim (Option-cases (target memb sid sender i h)) [
    | inl e ↦ inl (rw (forward_one, e) refl)
    | inr (t, e) ↦
        let (out, o) = encodes (to_one fr i) (to_one-IsFrame fr i v r) in
        inr (
          t,
          out,
          letter fr.src_index i (to_one fr i) h t out (to_one-IsFrame fr i v r) refl e o,
          rw (forward_one, e, o) refl,
        )
  ]
