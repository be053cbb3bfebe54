-- ===== src/Protocol/Frame/Parse.antt =====
-- `ParseFrame` on the bytes of a frame in range.
use mathlib.Core.List.{append_assoc}
use p2p_server.Base.{
  ℕ, ◌+◌, ◌*◌, ◌≤◌, ◌<◌, ◌≡◌, refl, List, [], ◌∷◌, ◌++◌, ok, arith, length, length-append, All,
}
use p2p_server.Base.Bytes.{put_u16, drop-append, byte_at-append, u16_range, u32_range}
use p2p_server.Protocol.Frame.{Frame, parse_frame, read_dsts, read_destinations}
use p2p_server.Protocol.Frame.Layout.{u16s, header, frame_to, length-u16s}

read_dsts_lem :
    (ds pre post : List ℕ) (off : ℕ)
    → off ≡ length pre
    → All (λ d. d < 65536) ds
    → read_dsts (pre ++ (u16s ds ++ post)) (length ds) off ≡ ds
unfolding read_dsts
read_dsts_lem [] pre post off h r = refl
read_dsts_lem (d ∷ ds) pre post off h r =
    let ih : read_dsts (pre ++ (put_u16 d ++ (u16s ds ++ post))) (length ds) (off + 2) ≡ ds =
      rw (← append_assoc pre (put_u16 d) (u16s ds ++ post)) (
        read_dsts_lem ds (pre ++ put_u16 d) post (off + 2)
          (omega (arith, length-append pre (put_u16 d))) r.1) in
    rw (
      byte_at-append pre (u16s (d ∷ ds) ++ post) off 0 (omega arith),
      byte_at-append pre (u16s (d ∷ ds) ++ post) (off + 1) 1 (omega arith),
      u16_range d r.0,
      ih,
    )

module _ (flags src_index stream_id seq : ℕ) (payload : List ℕ) (src : src_index < 65536)
    (sid : stream_id < 4294967296) (sq : seq < 65536) where
  abbrev to : ℕ → List ℕ → Frame
  to = frame_to flags src_index stream_id seq payload

  pub parse_unicast :
      (d : ℕ)
      → d < 65536
      → parse_frame (header (to 1 (d ∷ [])) ++ (u16s (d ∷ []) ++ payload)) ≡ ok (to 1 (d ∷ []))
  unfolding parse_frame read_destinations
  parse_unicast d h =
      ground
        (arith, u16_range d h, u16_range src_index src, u32_range stream_id sid, u16_range seq sq)

  pub parse_broadcast : parse_frame (header (to 3 []) ++ payload) ≡ ok (to 3 [])
  unfolding parse_frame read_destinations
  parse_broadcast =
      ground (arith, u16_range src_index src, u32_range stream_id sid, u16_range seq sq)

  read_multicast :
      (ds : List ℕ)
      → 1 ≤ length ds
      → length ds ≤ 255
      → All (λ d. d < 65536) ds
      → read_destinations (header (to 2 ds) ++ (length ds ∷ (u16s ds ++ payload))) 2 12
        ≡ ok (ds, 13 + 2 * length ds)
  unfolding read_destinations
  read_multicast ds lo hi r = ground (
    arith,
    read_dsts_lem ds (header (to 2 ds) ++ length ds ∷ []) payload 13 refl r,
    length-append (u16s ds) payload,
    length-u16s ds,
  )

  pub parse_multicast :
      (ds : List ℕ)
      → 1 ≤ length ds
      → length ds ≤ 255
      → All (λ d. d < 65536) ds
      → parse_frame (header (to 2 ds) ++ (length ds ∷ (u16s ds ++ payload))) ≡ ok (to 2 ds)
  unfolding parse_frame
  parse_multicast ds lo hi r = ground (
    arith,
    read_multicast ds lo hi r,
    drop-append (header (to 2 ds) ++ (length ds ∷ u16s ds)) payload (13 + 2 * length ds),
    length-u16s ds,
    u16_range src_index src,
    u32_range stream_id sid,
    u16_range seq sq,
  )
