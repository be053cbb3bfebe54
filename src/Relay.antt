-- ===== src/Relay.antt =====
-- internal/relay/relay.go: who may send data frames to whom. The membership is the interface that
-- the forwarder is given; the hub of the online members is its state beside the counters.
pub mod Letter
pub mod Rules
pub mod Admission
use p2p_server.Base.{
  ℕ, suc, ◌+◌, ◌*◌, ◌^◌, ◌%◌, String, Bool, true, false, not, ◌||◌, Option, none, some, List, [],
  ◌∷◌, Result, ok, err, ltb, ◌==◌, length, same, if◌then◌else◌,
}
use p2p_server.Base.Bytes.{byte_at}
use p2p_server.Protocol.{default_max_relay_frame}
use p2p_server.Protocol.Frame.{
  Frame, encode_frame, parse_frame, dst_unicast, dst_multicast, dst_broadcast,
}
use p2p_server.Member.{Hub, binary}
use p2p_server.Member.Deliver.{deliver, broadcast}
use p2p_server.Member.Members.{lookup_member_by_index}

pub data RelayError : Type 0 where
  not_authorized target_not_found bad_frame too_large : RelayError

-- `Membership`
pub record Membership : Type 0 where
  pub is_active_member : String → String → Bool
  pub member_index : String → String → Option ℕ

-- `Forwarder`: its hub and its counters; `max_frame` is positive after `New`.
pub record Forwarder : Type 0 where
  pub mem : Hub
  pub max_frame : ℕ
  pub frames_in : ℕ
  pub frames_out : ℕ
  pub bytes_in : ℕ
  pub bytes_out : ℕ
  pub denied_frames : ℕ
  pub no_target : ℕ

-- `New`; a limit below 1 is the default one.
unfoldable pub new_forwarder : Hub → ℕ → Forwarder
new_forwarder h limit = record {
  mem = h;
  max_frame = if limit == 0 then default_max_relay_frame else limit;
  frames_in = 0;
  frames_out = 0;
  bytes_in = 0;
  bytes_out = 0;
  denied_frames = 0;
  no_target = 0;
}

-- `Add` on an `atomic.Uint64`
abbrev pub add64 : ℕ → ℕ → ℕ
add64 a b = (a + b) % 2 ^ 64

abbrev pub deny : Forwarder → Forwarder
deny f = record f { denied_frames = add64 f.denied_frames 1 }

abbrev pub miss : Forwarder → Forwarder
miss f = record f { no_target = add64 f.no_target 1 }

-- `count`
abbrev pub count_out : ℕ → Forwarder → Forwarder
count_out n f = record f { frames_out = add64 f.frames_out 1; bytes_out = add64 f.bytes_out n }

abbrev pub with_hub : Hub → Forwarder → Forwarder
with_hub h f = record f { mem = h }

-- The member that a frame to an index goes to, if it may.
unfoldable pub target : Membership → String → String → ℕ → Hub → Option String
target memb sid sender i h = elim (lookup_member_by_index sid i h) [
  | none ↦ none
  | some t ↦ if same t sender || not (memb.is_active_member sid t) then none else some t
]

-- `forwardUnicast`; `Dst[0]` is there in each frame that was parsed.
unfoldable pub forward_unicast :
    Membership → String → String → Frame → Forwarder → Forwarder × Result RelayError ℕ
forward_unicast memb sid sender fr f = elim (target memb sid sender (byte_at fr.dst 0) f.mem) [
  | none ↦ (miss f, err target_not_found)
  | some t ↦ elim (encode_frame fr) [
    | err _ ↦ (f, err bad_frame)
    | ok out ↦
        let (h, sent) = deliver sid t (binary out) f.mem in
        if sent
        then (count_out (length fr.payload) (with_hub h f), ok 1)
        else (miss (with_hub h f), err target_not_found)
  ]
]

-- The body of the loop of `forwardMulticast`: each target has a frame of its own, to that index
-- alone. Whether it was queued.
unfoldable pub forward_one : Membership → String → String → Frame → ℕ → Hub → Hub × Bool
forward_one memb sid sender fr i h = elim (target memb sid sender i h) [
  | none ↦ (h, false)
  | some t ↦ elim (encode_frame (record fr { dst_type = dst_unicast; dst = i ∷ [] })) [
    | err _ ↦ (h, false)
    | ok out ↦ deliver sid t (binary out) h
  ]
]

-- The loop, which counts the frames that were queued.
unfoldable pub forward_each : Membership → String → String → Frame → List ℕ → Hub → Hub × ℕ
forward_each memb sid sender fr [] h = (h, 0)
forward_each memb sid sender fr (i ∷ is) h =
    let (h', sent) = forward_one memb sid sender fr i h in
    let (h'', n) = forward_each memb sid sender fr is h' in (h'', if sent then n + 1 else n)

-- `forwardMulticast`
unfoldable pub forward_multicast :
    Membership → String → String → Frame → Forwarder → Forwarder × Result RelayError ℕ
forward_multicast memb sid sender fr f =
    let (h, n) = forward_each memb sid sender fr fr.dst f.mem in
    if n == 0
    then (miss (with_hub h f), err target_not_found)
    else (count_out (length fr.payload * n) (with_hub h f), ok n)

-- `forwardBroadcast`
unfoldable pub forward_broadcast :
    String → String → Frame → Forwarder → Forwarder × Result RelayError ℕ
forward_broadcast sid sender fr f = elim (encode_frame fr) [
  | err _ ↦ (f, err bad_frame)
  | ok out ↦
      let (h, n) = broadcast sid sender (binary out) f.mem in
      if n == 0
      then (miss (with_hub h f), err target_not_found)
      else (count_out (length fr.payload * n) (with_hub h f), ok n)
]

-- A frame that is taken, whatever becomes of it.
abbrev pub take_in : Frame → Forwarder → Forwarder
take_in fr f = record f {
  frames_in = add64 f.frames_in 1;
  bytes_in = add64 f.bytes_in (length fr.payload);
}

-- The `switch` of `Forward`
abbrev pub forward_to :
    Membership → String → String → Frame → Forwarder → Forwarder × Result RelayError ℕ
forward_to memb sid sender fr f =
    if fr.dst_type == dst_unicast
    then forward_unicast memb sid sender fr f
    else if fr.dst_type == dst_multicast
    then forward_multicast memb sid sender fr f
    else if fr.dst_type == dst_broadcast
    then forward_broadcast sid sender fr f
    else (f, err bad_frame)

-- `Forward`: the forwarder afterwards, and the number of receivers or why the frame is refused.
unfoldable pub forward :
    Membership → String → String → List ℕ → Forwarder → Forwarder × Result RelayError ℕ
forward memb sid sender raw f =
    if not (memb.is_active_member sid sender)
    then (deny f, err not_authorized)
    else elim (memb.member_index sid sender) [
      | none ↦ (deny f, err not_authorized)
      | some i ↦ elim (parse_frame raw) [
        | err _ ↦ (deny f, err bad_frame)
        | ok fr ↦
            if ltb f.max_frame (length fr.payload)
            then (deny f, err too_large)
            else forward_to memb sid sender (record fr { src_index = i }) (take_in fr f)
      ]
    ]
