-- ===== src/Protocol/Frame.antt =====
-- internal/protocol/frame.go: the binary frame of the data plane. A byte slice is a list of
-- numbers; the integers of a frame are numbers within their width.
pub mod Layout
pub mod Parse
pub mod RoundTrip
pub mod Range
use p2p_server.Base.{
  ℕ, zero, suc, ◌+◌, ◌*◌, ◌%◌, List, [], ◌∷◌, ◌++◌, Bool, ◌||◌, Result, ok, err, ◌>>=◌, ◌>>◌,
  reject_if, ltb, ◌==◌, if◌then◌else◌, length, drop,
}
use p2p_server.Base.Bytes.{replicate, byte_at, copy_at, put_u16, put_u32, u16_at, u32_at}

abbrev pub frame_magic : ℕ
frame_magic = 0x21

abbrev pub dst_unicast : ℕ
dst_unicast = 1

abbrev pub dst_multicast : ℕ
dst_multicast = 2

abbrev pub dst_broadcast : ℕ
dst_broadcast = 3

abbrev pub frame_fixed_header : ℕ
frame_fixed_header = 12

abbrev pub max_multicast_n : ℕ
max_multicast_n = 255

pub record Frame : Type 0 where
  pub flags : ℕ
  pub src_index : ℕ
  pub dst_type : ℕ
  pub dst : List ℕ
  pub stream_id : ℕ
  pub seq : ℕ
  pub payload : List ℕ

pub data FrameError : Type 0 where
  invalid_dst_type unicast_needs_one multicast_needs_one multicast_exceeds : FrameError
  too_short truncated_unicast truncated_multicast bad_multicast_list : FrameError
  bad_magic unknown_dst_type : ℕ → FrameError

-- The first `switch` of `EncodeFrame`: the bytes that the destinations take.
unfoldable pub extra_len : Frame → Result FrameError ℕ
extra_len f =
    if f.dst_type == dst_unicast
    then (if length f.dst == 1 then ok 2 else err unicast_needs_one)
    else if f.dst_type == dst_multicast
    then (if length f.dst == 0
        then err multicast_needs_one
        else if ltb max_multicast_n (length f.dst)
        then err multicast_exceeds
        else ok (1 + 2 * length f.dst))
    else ok 0

-- The loop over `f.Dst` of the second `switch`; `off` goes on by two.
unfoldable pub put_dsts : List ℕ → ℕ → List ℕ → List ℕ × ℕ
put_dsts buf off [] = (buf, off)
put_dsts buf off (idx ∷ rest) = put_dsts (copy_at buf off (put_u16 idx)) (off + 2) rest

-- The second `switch`: the buffer with the destinations, and the offset of the payload.
unfoldable pub put_destinations : Frame → List ℕ → ℕ → List ℕ × ℕ
put_destinations f buf off =
    if f.dst_type == dst_unicast
    then (copy_at buf off (put_u16 (byte_at f.dst 0)), off + 2)
    else if f.dst_type == dst_multicast
    then put_dsts (copy_at buf off (length f.dst % 256 ∷ [])) (off + 1) f.dst
    else (buf, off)

-- The writes at fixed offsets; byte 11 is reserved and stays 0.
unfoldable pub put_header : Frame → List ℕ → List ℕ
put_header f buf0 =
    let buf1 = copy_at buf0 0 (frame_magic ∷ f.flags ∷ []) in
    let buf2 = copy_at buf1 2 (put_u16 f.src_index) in
    let buf3 = copy_at buf2 4 (f.dst_type ∷ []) in
    let buf4 = copy_at buf3 5 (put_u32 f.stream_id) in copy_at buf4 9 (put_u16 f.seq)

unfoldable pub encode_frame : Frame → Result FrameError (List ℕ)
encode_frame f = do
  reject_if (ltb f.dst_type dst_unicast || ltb dst_broadcast f.dst_type) invalid_dst_type
  extra ← extra_len f
  let buf = replicate (frame_fixed_header + (extra + length f.payload)) 0
  let (buf', off) = put_destinations f (put_header f buf) frame_fixed_header
  ok (copy_at buf' off f.payload)

-- The loop of `ParseFrame` that reads `n` destinations.
unfoldable pub read_dsts : List ℕ → ℕ → ℕ → List ℕ
read_dsts b zero off = []
read_dsts b (suc n) off = u16_at b off ∷ read_dsts b n (off + 2)

-- The `switch` of `ParseFrame`: the destinations, and the offset of the payload.
unfoldable pub read_destinations : List ℕ → ℕ → ℕ → Result FrameError (List ℕ × ℕ)
read_destinations b dst_type off =
    if dst_type == dst_unicast
    then (if ltb (length b) (off + 2)
        then err truncated_unicast
        else ok (u16_at b off ∷ [], off + 2))
    else if dst_type == dst_multicast
    then (if ltb (length b) (off + 1)
        then err truncated_multicast
        else let n = byte_at b off in
          if n == 0 || ltb max_multicast_n n || ltb (length b) (off + 1 + 2 * n)
          then err bad_multicast_list
          else ok (read_dsts b n (off + 1), off + 1 + 2 * n))
    else if dst_type == dst_broadcast
    then ok ([], off)
    else err (unknown_dst_type dst_type)

unfoldable pub parse_frame : List ℕ → Result FrameError Frame
parse_frame b = do
  reject_if (ltb (length b) frame_fixed_header) too_short
  reject_if (if byte_at b 0 == frame_magic then Bool.false else Bool.true) (bad_magic (byte_at b 0))
  (dst, off) ← read_destinations b (byte_at b 4) frame_fixed_header
  ok (record {
    flags = byte_at b 1;
    src_index = u16_at b 2;
    dst_type = byte_at b 4;
    dst = dst;
    stream_id = u32_at b 5;
    seq = u16_at b 9;
    payload = drop off b;
  })

unfoldable pub header_len : Frame → ℕ
header_len f =
    if f.dst_type == dst_unicast
    then frame_fixed_header + 2
    else if f.dst_type == dst_multicast
    then frame_fixed_header + 1 + 2 * length f.dst
    else frame_fixed_header
