-- ===== src/Protocol/Frame/RoundTrip.antt =====
-- `ParseFrame` after `EncodeFrame`, and what a frame that parses looks like.
use p2p_server.Base.{
  ℕ, zero, suc, ◌+◌, ◌*◌, ◌-◌, ◌≤◌, ◌<◌, ◌≡◌, refl, ◌⊎◌, inl, inr, List, [], ◌∷◌, ok, ◌>>=◌, arith,
  length, drop, All, Result-cases, ◌%◌, ◌∙◌,
}
use p2p_server.Base.Bytes.{byte_at, copy_at, put_u16, replicate, length-replicate, length-copy_at}
use p2p_server.Protocol.Frame.{
  Frame, encode_frame, parse_frame, header_len, read_dsts, read_destinations, extra_len, put_header,
  put_destinations, put_dsts,
}
use p2p_server.Protocol.Frame.Layout.{frame_to, encode_unicast, encode_multicast, encode_broadcast}
use p2p_server.Protocol.Frame.Parse.{parse_unicast, parse_multicast, parse_broadcast}

-- The destinations fit the kind of the frame.
abbrev pub IsAddressed : Frame → Type 0
IsAddressed f =
    ((f.dst_type ≡ 1) × (length f.dst ≡ 1))
    ⊎ ((f.dst_type ≡ 2) × (1 ≤ length f.dst) × (length f.dst ≤ 255))
    ⊎ (f.dst_type ≡ 3)

-- The fields of several bytes are within their widths, the destinations fit the kind, and a
-- broadcast names nobody.
pub record IsFrame (f : Frame) : Type 0 where
  pub src : f.src_index < 65536
  pub stream : f.stream_id < 4294967296
  pub seq : f.seq < 65536
  pub dsts : All (λ d. d < 65536) f.dst
  pub addressed : IsAddressed f
  pub broadcast : f.dst_type ≡ 3 → f.dst ≡ []

module _ (flags src_index stream_id seq : ℕ) (payload : List ℕ) (src : src_index < 65536)
    (sid : stream_id < 4294967296) (sq : seq < 65536) where
  abbrev to : ℕ → List ℕ → Frame
  to = frame_to flags src_index stream_id seq payload

  unicast_trip :
      (ds : List ℕ)
      → length ds ≡ 1
      → All (λ d. d < 65536) ds
      → (encode_frame (to 1 ds) >>= parse_frame) ≡ ok (to 1 ds)
  unicast_trip [] e r = absurd (omega arith)
  unicast_trip (d ∷ []) e r =
      rw (encode_unicast flags src_index stream_id seq payload d)
        (parse_unicast flags src_index stream_id seq payload src sid sq d r.0)
  unicast_trip (d ∷ d' ∷ ds) e r = absurd (omega arith)

  multicast_trip :
      (ds : List ℕ)
      → 1 ≤ length ds
      → length ds ≤ 255
      → All (λ d. d < 65536) ds
      → (encode_frame (to 2 ds) >>= parse_frame) ≡ ok (to 2 ds)
  multicast_trip ds lo hi r =
      rw (encode_multicast flags src_index stream_id seq payload ds lo hi)
        (parse_multicast flags src_index stream_id seq payload src sid sq ds lo hi r)

  broadcast_trip : (ds : List ℕ) → ds ≡ [] → (encode_frame (to 3 ds) >>= parse_frame) ≡ ok (to 3 ds)
  broadcast_trip ds e = rw e (
      rw (encode_broadcast flags src_index stream_id seq payload [])
        (parse_broadcast flags src_index stream_id seq payload src sid sq))

  any_trip :
      (t : ℕ) (ds : List ℕ)
      → IsFrame (to t ds)
      → (encode_frame (to t ds) >>= parse_frame) ≡ ok (to t ds)
  any_trip t ds v = elim v.addressed [
    | inl a ↦ rw a.0 (unicast_trip ds a.1 v.dsts)
    | inr (inl b) ↦ rw b.0 (multicast_trip ds b.1 b.2 v.dsts)
    | inr (inr c) ↦ rw c (broadcast_trip ds (v.broadcast c))
  ]

-- A frame whose fields fit their widths, whose destinations fit its kind and which names nobody as
-- a broadcast is encoded without an error, and parsing the bytes gives the same frame.
pub parse_frame-encode_frame : (f : Frame) → IsFrame f → (encode_frame f >>= parse_frame) ≡ ok f
parse_frame-encode_frame f v =
    any_trip f.flags f.src_index f.stream_id f.seq f.payload v.src v.stream v.seq f.dst_type f.dst v

length-put_dsts : (ds buf : List ℕ) (off : ℕ) → length (put_dsts buf off ds).0 ≡ length buf
unfolding put_dsts
length-put_dsts [] buf off = refl
length-put_dsts (d ∷ ds) buf off =
    length-put_dsts ds (copy_at buf off (put_u16 d)) (off + 2) ∙ length-copy_at buf off (put_u16 d)

length-put_destinations :
    (f : Frame) (buf : List ℕ) → length (put_destinations f buf 12).0 ≡ length buf
unfolding put_destinations
length-put_destinations f buf = ground (
  arith,
  length-copy_at buf 12 (put_u16 (byte_at f.dst 0)),
  length-put_dsts f.dst (copy_at buf 12 (length f.dst % 256 ∷ [])) 13,
  length-copy_at buf 12 (length f.dst % 256 ∷ []),
)

length-put_header : (f : Frame) (buf : List ℕ) → length (put_header f buf) ≡ length buf
unfolding put_header
length-put_header f buf = simp length-copy_at

pub extra_len_ok :
    (f : Frame) (n : ℕ)
    → 1 ≤ f.dst_type
    → f.dst_type ≤ 3
    → extra_len f ≡ ok n
    → IsAddressed f × (12 + n ≡ header_len f)
unfolding extra_len header_len
extra_len_ok f n lo hi e = ground arith

length-buffer :
    (f : Frame) (n : ℕ)
    → length (
        copy_at
          (put_destinations f (put_header f (replicate n 0)) 12).0
          (put_destinations f (put_header f (replicate n 0)) 12).1
          f.payload)
      ≡ n
length-buffer f n =
    simp (length-copy_at, length-put_destinations, length-put_header, length-replicate)

-- A frame is encoded only if its destinations fit its kind, and then into as many bytes as
-- `HeaderLen` and the payload say.
pub length-encode_frame :
    (f : Frame) (b : List ℕ)
    → encode_frame f ≡ ok b
    → IsAddressed f × (length b ≡ header_len f + length f.payload)
unfolding encode_frame
length-encode_frame f b e = elim (Result-cases (extra_len f)) [
  | inl (n, h) ↦ ground (arith, extra_len_ok f n, length-buffer f (12 + (n + length f.payload)))
  | inr (x, h) ↦ ground arith
]

length-read_dsts : (b : List ℕ) (n off : ℕ) → length (read_dsts b n off) ≡ n
unfolding read_dsts
length-read_dsts b zero off = refl
length-read_dsts b (suc n) off = omega (arith, length-read_dsts b n (off + 2))

length-drop : (n : ℕ) (xs : List ℕ) → length (drop n xs) ≡ length xs - n
length-drop zero xs = omega arith
length-drop (suc n) [] = omega arith
length-drop (suc n) (x ∷ xs) = omega (arith, length-drop n xs)

-- A slice that parses is a frame with fitting destinations, and its payload is what follows a
-- header of the length that `HeaderLen` gives.
pub parse_frame-IsAddressed :
    (b : List ℕ) (f : Frame)
    → parse_frame b ≡ ok f
    → IsAddressed f × (header_len f + length f.payload ≡ length b)
unfolding parse_frame read_destinations header_len
parse_frame-IsAddressed b f h = ground (
  arith,
  length-read_dsts b (byte_at b 12) 13,
  length-drop 14 b,
  length-drop (13 + 2 * byte_at b 12) b,
  length-drop 12 b,
)
