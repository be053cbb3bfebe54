-- ===== src/Relay/Rules.antt =====
-- Who receives a unicast or a multicast, and what.
use mathlib.Core.Path.{subst}
use p2p_server.Base.{
  ℕ, sym, ◌+◌, ◌≤◌, ◌<◌, ◌≡◌, refl, ◌≢◌, inl, inr, String, Bool, true, false, some, List, [], ◌∷◌,
  Result, ok, err, arith, ltb, ◌==◌, length, if◌then◌else◌, All, Option-cases, Bool-cases,
}
use p2p_server.Base.Bytes.{byte_at}
use p2p_server.Protocol.Frame.{Frame, parse_frame}
use p2p_server.Protocol.Frame.RoundTrip.{IsFrame}
use p2p_server.Protocol.Frame.Range.{parse_frame-IsFrame}
use p2p_server.Member.{Hub, binary}
use p2p_server.Member.Deliver.{deliver}
use p2p_server.Relay.{
  Membership, Forwarder, RelayError, target_not_found, target, forward_each, forward_unicast,
  forward_multicast, forward_to, take_in, forward,
}
use p2p_server.Relay.Letter.{Sends, done, send, letter, encodes, forward_one-cases}

module _ (memb : Membership) (sid sender : String) where
  forward_each-Sends :
      (fr : Frame) (is : List ℕ) (h : Hub)
      → IsFrame fr
      → All (λ d. d < 65536) is
      → Sends memb sid sender fr.src_index fr.payload h
          (forward_each memb sid sender fr is h).0
          (forward_each memb sid sender fr is h).1
  unfolding forward_each
  forward_each-Sends fr [] h v r = done
  forward_each-Sends fr (i ∷ is) h v r =
      let after : Hub × Bool → Type 0 = λ o.
        Sends memb sid sender fr.src_index fr.payload h (forward_each memb sid sender fr is o.0).0 (
          if o.1
          then (forward_each memb sid sender fr is o.0).1 + 1
          else (forward_each memb sid sender fr is o.0).1) in
      elim (forward_one-cases memb sid sender fr i h v r.0) [
        | inl e ↦ subst after (sym e) (forward_each-Sends fr is h v r.1)
        | inr (t, out, l, e) ↦ subst after (sym e) (send t out l (forward_each-Sends fr is _ v r.1))
      ]

  forward_multicast-Sends :
      (fr : Frame) (f : Forwarder)
      → IsFrame fr
      → (n : ℕ) × Sends memb sid sender fr.src_index fr.payload f.mem
          (forward_multicast memb sid sender fr f).0.mem
          n
        × ((forward_multicast memb sid sender fr f).1
            ≡ (if n == 0 then err target_not_found else ok n))
  unfolding forward_multicast
  forward_multicast-Sends fr f v =
      let out = forward_each memb sid sender fr fr.dst f.mem in
      let sends = forward_each-Sends fr fr.dst f.mem v v.dsts in
      elim (Bool-cases (out.1 == 0)) [
        | inl e ↦ (out.1, rw (forward_multicast, e) sends, rw (forward_multicast, e) refl)
        | inr e ↦ (out.1, rw (forward_multicast, e) sends, rw (forward_multicast, e) refl)
      ]

  -- What a relayed frame may do: deliveries to other active members, and their count as answer.
  abbrev pub IsRelayed : ℕ → List ℕ → Hub → Forwarder × Result RelayError ℕ → Type 0
  IsRelayed src payload h out =
      (n : ℕ) × Sends memb sid sender src payload h out.0.mem n
      × (out.1 ≡ (if n == 0 then err target_not_found else ok n))

  forward_unicast-IsRelayed :
      (fr : Frame) (f : Forwarder)
      → IsFrame fr
      → IsRelayed fr.src_index fr.payload f.mem (forward_unicast memb sid sender fr f)
  unfolding forward_unicast
  forward_unicast-IsRelayed fr f v =
      let i = byte_at fr.dst 0 in
      elim (Option-cases (target memb sid sender i f.mem)) [
        | inl e ↦ (0, rw (forward_unicast, e) done, rw (forward_unicast, e) refl)
        | inr (t, e) ↦
            let (out, o) = encodes memb sid sender fr v in
            let once =
              send t out (letter memb sid sender fr.src_index i fr f.mem t out v refl e o) done in
            elim (Bool-cases (deliver sid t (binary out) f.mem).1) [
              | inl y ↦ (
                1,
                rw (forward_unicast, e, o, y)
                    (subst
                      (λ b.
                        Sends memb sid sender fr.src_index fr.payload f.mem
                          (deliver sid t (binary out) f.mem).0 (if b then 1 else 0))
                      y once),
                rw (forward_unicast, e, o, y) refl,
              )
              | inr y ↦ (
                0,
                rw (forward_unicast, e, o, y)
                    (subst
                      (λ b.
                        Sends memb sid sender fr.src_index fr.payload f.mem
                          (deliver sid t (binary out) f.mem).0 (if b then 1 else 0))
                      y once),
                rw (forward_unicast, e, o, y) refl,
              )
            ]
      ]

  forward_to-IsRelayed :
      (fr : Frame) (f : Forwarder)
      → IsFrame fr
      → fr.dst_type ≢ 3
      → IsRelayed fr.src_index fr.payload f.mem (forward_to memb sid sender fr f)
  forward_to-IsRelayed fr f v kind = elim (Bool-cases (fr.dst_type == 1)) [
    | inl e ↦ rw e (forward_unicast-IsRelayed fr f v)
    | inr e ↦ elim (Bool-cases (fr.dst_type == 2)) [
      | inl e' ↦ rw (e, e') (forward_multicast-Sends fr f v)
      | inr e' ↦ absurd (ground (arith, v.addressed))
    ]
  ]

  stamped-IsFrame :
      (fr : Frame) (i : ℕ) → IsFrame fr → i < 65536 → IsFrame (record fr { src_index = i })
  stamped-IsFrame fr i v r = record {
    src = r;
    stream = v.stream;
    seq = v.seq;
    dsts = v.dsts;
    addressed = v.addressed;
    broadcast = v.broadcast;
  }

  taken :
      (raw : List ℕ) (fr : Frame) (i : ℕ) (f : Forwarder)
      → parse_frame raw ≡ ok fr
      → length fr.payload ≤ f.max_frame
      → memb.is_active_member sid sender ≡ true
      → memb.member_index sid sender ≡ some i
      → forward memb sid sender raw f
        ≡ forward_to memb sid sender (record fr { src_index = i }) (take_in fr f)
  unfolding forward
  taken raw fr i f parsed fits act index =
      let within : ltb f.max_frame (length fr.payload) ≡ false = ground arith in
      rw (forward, act, index, parsed, within) refl

  -- A unicast or a multicast of an active member whose payload is within the limit: the queues change
  -- only by deliveries to other active members, of frames that carry the payload and the
  -- sender's own index, whatever index the sender wrote; the answer is the number of those that
  -- were queued, or that there was no target.
  pub forward-IsRelayed :
      (raw : List ℕ) (fr : Frame) (i : ℕ) (f : Forwarder)
      → All (λ x. x < 256) raw
      → parse_frame raw ≡ ok fr
      → fr.dst_type ≢ 3
      → length fr.payload ≤ f.max_frame
      → memb.is_active_member sid sender ≡ true
      → memb.member_index sid sender ≡ some i
      → i < 65536
      → IsRelayed i fr.payload f.mem (forward memb sid sender raw f)
  forward-IsRelayed raw fr i f bytes parsed kind fits act index range =
      subst (IsRelayed i fr.payload f.mem) (sym (taken raw fr i f parsed fits act index)) (
        forward_to-IsRelayed (record fr { src_index = i }) (take_in fr f)
          (stamped-IsFrame fr i (parse_frame-IsFrame raw fr bytes parsed) range) kind)
