-- ===== src/Scenarios/Frames.antt =====
-- Examples of the theorems about frames, and about what the relay does with them.
use p2p_server.Base.{
  ltb, ◌&&◌, if◌then◌else◌, ℕ, ◌<◌, ◌≤◌, ◌≡◌, refl, inl, inr, Bool, true, some, List, [], ◌∷◌, ok,
  ◌>>=◌, arith, same, String_discrete, ℕ_discrete, All, length,
}
use p2p_server.Base.Dict.{lookup, insert}
use p2p_server.Protocol.Frame.{
  Frame, encode_frame, parse_frame, extra_len, read_destinations, read_dsts,
}
use p2p_server.Protocol.Frame.Range.{IsInBytes, parse_frame-IsInBytes}
use p2p_server.Protocol.Frame.RoundTrip.{IsFrame, parse_frame-encode_frame}
use p2p_server.Member.{new_conn, send}
use p2p_server.Member.Attach.{attach}
use p2p_server.Member.Deliver.{deliver}
use p2p_server.Member.Members.{lookup_member_by_index}
use p2p_server.Relay.{
  Membership, Forwarder, new_forwarder, target, forward_one, forward_each, forward_multicast,
  forward,
}
use p2p_server.Relay.Admission.{forward_ok}
use p2p_server.Relay.Rules.{IsRelayed, forward-IsRelayed}
use p2p_server.Scenarios.{hub_2}

-- A multicast to the indices 2 and 9, which gives its source as 7.
abbrev pub letter : Frame
letter = record {
  flags = 0;
  src_index = 7;
  dst_type = 2;
  dst = 2 ∷ 9 ∷ [];
  stream_id = 5;
  seq = 258;
  payload = 104 ∷ 105 ∷ [];
}

abbrev bytes : List ℕ
bytes = 0x21 ∷ 0 ∷ 0 ∷ 7 ∷ 2 ∷ 0 ∷ 0 ∷ 0 ∷ 5 ∷ 1 ∷ 2 ∷ 0 ∷ 2 ∷ 0 ∷ 2 ∷ 0 ∷ 9 ∷ 104 ∷ 105 ∷ []

letter-IsFrame : IsFrame letter
letter-IsFrame = record {
  src = omega arith;
  stream = omega arith;
  seq = omega arith;
  dsts = (omega arith, (omega arith, tt));
  addressed = inr (inl (refl, omega arith, omega arith));
  broadcast = λ e. absurd (omega arith);
}

-- Numbers that are tested to be bytes.
abbrev fit : List ℕ → Bool
fit [] = true
fit (x ∷ xs) = ltb x 256 && fit xs

fit-All : (xs : List ℕ) → fit xs ≡ true → All (λ x. x < 256) xs
fit-All [] e = tt
fit-All (x ∷ xs) e = (ground (arith, e), fit-All xs (ground (arith, e)))

parse_frame-encode_frame_example : (encode_frame letter >>= parse_frame) ≡ ok letter
parse_frame-encode_frame_example = parse_frame-encode_frame letter letter-IsFrame

parse_frame-IsInBytes_example : IsInBytes letter
unfolding parse_frame read_destinations read_dsts
parse_frame-IsInBytes_example = parse_frame-IsInBytes bytes letter (fit-All bytes refl) refl

-- Both members are active, under the indices 1 and 2.
abbrev members : Membership
members = record {
  is_active_member = λ sid mid. true;
  member_index = λ sid mid. if same mid "mbr_1" then some 1 else some 2;
}

abbrev forwarder : Forwarder
forwarder = new_forwarder hub_2 100

forward-IsRelayed_example :
    IsRelayed members "sess_1" "mbr_1" 1
      (104 ∷ 105 ∷ [])
      hub_2
      (forward members "sess_1" "mbr_1" bytes forwarder)
unfolding parse_frame read_destinations read_dsts new_forwarder String_discrete
forward-IsRelayed_example =
    forward-IsRelayed members "sess_1" "mbr_1" bytes letter 1 forwarder (fit-All bytes refl) refl
      (λ e. absurd (omega arith)) (omega arith) refl refl (omega arith)

forward_ok_example :
    (members.is_active_member "sess_1" "mbr_1" ≡ true)
    × (i : ℕ) × (members.member_index "sess_1" "mbr_1" ≡ some i)
    × (fr : Frame) × (parse_frame bytes ≡ ok fr)
    × (length fr.payload ≤ 100)
unfolding forward forward_multicast forward_each forward_one target lookup_member_by_index deliver
    parse_frame read_destinations read_dsts new_forwarder String_discrete lookup attach insert
    ℕ_discrete encode_frame extra_len send new_conn
forward_ok_example = forward_ok members "sess_1" "mbr_1" bytes forwarder 1 refl
