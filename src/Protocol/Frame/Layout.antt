-- ===== src/Protocol/Frame/Layout.antt =====
-- What `EncodeFrame` writes into its zeroed buffer, as one concatenation.
use mathlib.Core.List.{append_assoc}
use p2p_server.Base.{
  ℕ, ◌+◌, ◌*◌, ◌/◌, ◌%◌, ◌≤◌, ◌≡◌, refl, sym, ap, ◌∙◌, List, [], ◌∷◌, ◌++◌, ok, arith, length,
  length-append,
}
use p2p_server.Base.Bytes.{
  replicate, copy, copy_at, put_u16, length-replicate, replicate-add, copy_nil, copy_full,
  copy-append, copy_at-append,
}
use p2p_server.Protocol.Frame.{
  Frame, encode_frame, put_header, put_destinations, put_dsts, extra_len, frame_magic,
}

-- The destinations of a frame in order, two bytes each.
abbrev pub u16s : List ℕ → List ℕ
u16s [] = []
u16s (d ∷ ds) = (d / 256) % 256 ∷ d % 256 ∷ u16s ds

abbrev pub header : Frame → List ℕ
header f =
    frame_magic
    ∷ f.flags
    ∷ (f.src_index / 256) % 256
    ∷ f.src_index % 256
    ∷ f.dst_type
    ∷ (f.stream_id / 16777216) % 256
    ∷ (f.stream_id / 65536) % 256
    ∷ (f.stream_id / 256) % 256
    ∷ f.stream_id % 256
    ∷ (f.seq / 256) % 256
    ∷ f.seq % 256
    ∷ 0
    ∷ []

put_header_lem :
    (f : Frame) (rest : List ℕ) → put_header f (replicate 12 0 ++ rest) ≡ header f ++ rest
unfolding put_header copy_at copy
put_header_lem f rest = refl

pub length-u16s : (ds : List ℕ) → length (u16s ds) ≡ 2 * length ds
length-u16s [] = refl
length-u16s (d ∷ ds) = omega (arith, length-u16s ds)

-- A copy into the room that was left for it.
put_at :
    (pre room tail src : List ℕ) (off : ℕ)
    → off ≡ length pre
    → length room ≡ length src
    → copy_at (pre ++ (room ++ tail)) off src ≡ pre ++ (src ++ tail)
put_at pre room tail src off h k =
    copy_at-append pre (room ++ tail) src off h ∙ ap (◌++◌ pre) (copy-append room tail src k)

put_dsts_lem :
    (ds pre room tail : List ℕ) (off : ℕ)
    → off ≡ length pre
    → length room ≡ 2 * length ds
    → put_dsts (pre ++ (room ++ tail)) off ds ≡ (pre ++ (u16s ds ++ tail), off + 2 * length ds)
unfolding put_dsts
put_dsts_lem [] pre [] tail off h k = ground arith
put_dsts_lem [] pre (a ∷ room) tail off h k = absurd (omega arith)
put_dsts_lem (d ∷ ds) pre [] tail off h k = absurd (omega arith)
put_dsts_lem (d ∷ ds) pre (a ∷ []) tail off h k = absurd (omega arith)
put_dsts_lem (d ∷ ds) pre (a ∷ b ∷ room) tail off h k =
    rw
      (
        put_at pre (a ∷ b ∷ []) (room ++ tail) (put_u16 d) off h refl,
        ← append_assoc pre (put_u16 d) (room ++ tail),
        put_dsts_lem ds (pre ++ put_u16 d) room tail (off + 2)
            (omega (arith, length-append pre (put_u16 d))) (omega arith),
        append_assoc pre (put_u16 d) (u16s ds ++ tail),
      )
      (ground arith)

put_payload :
    (pre payload : List ℕ) (off : ℕ)
    → off ≡ length pre
    → copy_at (pre ++ replicate (length payload) 0) off payload ≡ pre ++ payload
put_payload pre payload off h =
    copy_at-append pre (replicate (length payload) 0) payload off h
    ∙ ap (◌++◌ pre) (copy_full _ payload (length-replicate (length payload) 0))

-- The count and the list of a multicast frame, written behind a header of 12 bytes.
put_multicast :
    (h ds tail : List ℕ) (c : ℕ)
    → length h ≡ 12
    → put_dsts (copy_at (h ++ (0 ∷ (replicate (2 * length ds) 0 ++ tail))) 12 (c ∷ [])) 13 ds
      ≡ ((h ++ c ∷ []) ++ (u16s ds ++ tail), 13 + 2 * length ds)
put_multicast h ds tail c e =
    rw
      (
        put_at h (0 ∷ []) (replicate (2 * length ds) 0 ++ tail) (c ∷ []) 12 (sym e) refl,
        ← append_assoc h (c ∷ []) (replicate (2 * length ds) 0 ++ tail),
      )
      (put_dsts_lem ds (h ++ c ∷ []) (replicate (2 * length ds) 0) tail 13
        (omega (arith, length-append h (c ∷ []))) (length-replicate (2 * length ds) 0))

module _ (flags src_index stream_id seq : ℕ) (payload : List ℕ) where
  abbrev pub frame_to : ℕ → List ℕ → Frame
  frame_to t ds = record {
    flags = flags;
    src_index = src_index;
    dst_type = t;
    dst = ds;
    stream_id = stream_id;
    seq = seq;
    payload = payload;
  }

  -- The zeroed buffer, once the header is written.
  header_of :
      (t : ℕ) (ds : List ℕ) (n : ℕ)
      → put_header (frame_to t ds) (replicate (12 + n) 0) ≡ header (frame_to t ds) ++ replicate n 0
  header_of t ds n = rw (replicate-add 12 n 0) (put_header_lem (frame_to t ds) (replicate n 0))

  pub encode_unicast :
      (d : ℕ)
      → encode_frame (frame_to 1 (d ∷ []))
        ≡ ok (header (frame_to 1 (d ∷ [])) ++ (u16s (d ∷ []) ++ payload))
  unfolding encode_frame extra_len put_destinations copy_at copy
  encode_unicast d = rw (
    header_of 1 (d ∷ []) (2 + length payload),
    replicate-add 2 (length payload) 0,
    copy_nil,
    copy_full (replicate (length payload) 0) payload (length-replicate _ 0),
  )

  pub encode_broadcast :
      (ds : List ℕ) → encode_frame (frame_to 3 ds) ≡ ok (header (frame_to 3 ds) ++ payload)
  unfolding encode_frame extra_len put_destinations copy_at copy
  encode_broadcast ds = rw (
    header_of 3 ds (0 + length payload),
    copy_full (replicate (0 + length payload) 0) payload
        (length-replicate (0 + length payload) 0 ∙ omega arith),
  )

  extra_multicast :
      (ds : List ℕ)
      → 1 ≤ length ds
      → length ds ≤ 255
      → extra_len (frame_to 2 ds) ≡ ok (1 + 2 * length ds)
  unfolding extra_len
  extra_multicast ds lo hi = ground arith

  pub encode_multicast :
      (ds : List ℕ)
      → 1 ≤ length ds
      → length ds ≤ 255
      → encode_frame (frame_to 2 ds)
        ≡ ok (header (frame_to 2 ds) ++ (length ds ∷ (u16s ds ++ payload)))
  unfolding encode_frame put_destinations
  encode_multicast ds lo hi =
      rw
        (
          extra_multicast ds lo hi,
          header_of 2 ds (1 + 2 * length ds + length payload),
          room,
          put_multicast (header (frame_to 2 ds)) ds (replicate (length payload) 0) (length ds % 256)
              refl,
          count,
          ← append_assoc (header (frame_to 2 ds) ++ length ds ∷ []) (u16s ds)
              (replicate (length payload) 0),
        )
        (ap ok (
          put_payload ((header (frame_to 2 ds) ++ length ds ∷ []) ++ u16s ds) payload
            (13 + 2 * length ds) (omega (arith, length-u16s ds))))
    where
      room :
          replicate (1 + 2 * length ds + length payload) 0
          ≡ 0 ∷ (replicate (2 * length ds) 0 ++ replicate (length payload) 0)
      room =
          replicate-add (1 + 2 * length ds) (length payload) 0
          ∙ ap (λ r. r ++ replicate (length payload) 0) (replicate-add 1 (2 * length ds) 0)

      count : length ds % 256 ≡ length ds
      count = omega arith
