-- ===== src/Protocol/Frame/Range.antt =====
-- The ranges of the fields that `ParseFrame` reads from bytes.
use mathlib.Core.Path.{subst}
use p2p_server.Base.{
  ℕ, zero, suc, ◌+◌, ◌<◌, ◌≡◌, List, [], ◌∷◌, ok, ◌⊎◌, inl, inr, Result-cases, arith, All, drop,
}
use p2p_server.Base.Bytes.{byte_at, u16_at, u32_at}
use p2p_server.Protocol.Frame.{Frame, parse_frame, read_dsts, read_destinations}
use p2p_server.Protocol.Frame.RoundTrip.{IsFrame, parse_frame-IsAddressed}

pub byte_at-range : (b : List ℕ) (i : ℕ) → All (λ x. x < 256) b → byte_at b i < 256
byte_at-range [] i h = omega arith
byte_at-range (x ∷ b) zero h = h.0
byte_at-range (x ∷ b) (suc i) h = byte_at-range b i h.1

u16_at-range : (b : List ℕ) (i : ℕ) → All (λ x. x < 256) b → u16_at b i < 65536
u16_at-range b i h = omega (arith, byte_at-range b i h, byte_at-range b (i + 1) h)

u32_at-range : (b : List ℕ) (i : ℕ) → All (λ x. x < 256) b → u32_at b i < 4294967296
u32_at-range b i h = omega (
  arith,
  byte_at-range b i h,
  byte_at-range b (i + 1) h,
  byte_at-range b (i + 2) h,
  byte_at-range b (i + 3) h,
)

read_dsts-range :
    (b : List ℕ) (n off : ℕ) → All (λ x. x < 256) b → All (λ d. d < 65536) (read_dsts b n off)
unfolding read_dsts
read_dsts-range b zero off h = tt
read_dsts-range b (suc n) off h = (u16_at-range b off h, read_dsts-range b n (off + 2) h)

destinations-cases :
    (b ds : List ℕ) (t off off' : ℕ)
    → read_destinations b t off ≡ ok (ds, off')
    → (ds ≡ u16_at b off ∷ []) ⊎ (ds ≡ read_dsts b (byte_at b off) (off + 1)) ⊎ (ds ≡ [])
unfolding read_destinations
destinations-cases b ds t off off' e = ground arith

destinations-broadcast :
    (b ds : List ℕ) (off off' : ℕ) → read_destinations b 3 off ≡ ok (ds, off') → ds ≡ []
unfolding read_destinations
destinations-broadcast b ds off off' e = ground arith

destinations-range :
    (b ds : List ℕ) (t off off' : ℕ)
    → All (λ x. x < 256) b
    → read_destinations b t off ≡ ok (ds, off')
    → All (λ d. d < 65536) ds
destinations-range b ds t off off' h e = elim (destinations-cases b ds t off off' e) [
  | inl one ↦ rw one (u16_at-range b off h, tt)
  | inr (inl many) ↦ rw many (read_dsts-range b (byte_at b off) (off + 1) h)
  | inr (inr none) ↦ rw none tt
]

parsed-destinations :
    (b : List ℕ) (f : Frame)
    → parse_frame b ≡ ok f
    → (off : ℕ) × (read_destinations b f.dst_type 12 ≡ ok (f.dst, off))
      × (f.src_index ≡ u16_at b 2)
      × (f.stream_id ≡ u32_at b 5)
      × (f.seq ≡ u16_at b 9)
unfolding parse_frame
parsed-destinations b f e = elim (Result-cases (read_destinations b (byte_at b 4) 12)) [
  | inl ((ds, off), d) ↦
      (off, ground (arith, d, e), ground (arith, d, e), ground (arith, d, e), ground (arith, d, e))
  | inr (x, d) ↦ absurd (ground (arith, d, e))
]

pub parse_frame-IsFrame :
    (b : List ℕ) (f : Frame) → All (λ x. x < 256) b → parse_frame b ≡ ok f → IsFrame f
parse_frame-IsFrame b f h e =
    let (off, d, src, stream, seq) = parsed-destinations b f e in
    record {
      src = rw src (u16_at-range b 2 h);
      stream = rw stream (u32_at-range b 5 h);
      seq = rw seq (u16_at-range b 9 h);
      dsts = destinations-range b f.dst f.dst_type 12 off h d;
      addressed = (parse_frame-IsAddressed b f e).0;
      broadcast = λ k.
          destinations-broadcast b f.dst 12 off
            (subst (λ t. read_destinations b t 12 ≡ ok (f.dst, off)) k d);
    }

-- A frame in which the fields of one byte and the payload are bytes, too.
pub record IsInBytes (f : Frame) : Type 0 where
  pub frame : IsFrame f
  pub flags : f.flags < 256
  pub dst_type : f.dst_type < 256
  pub payload : All (λ x. x < 256) f.payload

drop-All : (P : ℕ → Type 0) (n : ℕ) (xs : List ℕ) → All P xs → All P (drop n xs)
drop-All P zero xs h = h
drop-All P (suc n) [] h = tt
drop-All P (suc n) (x ∷ xs) h = drop-All P n xs h.1

parsed-bytes :
    (b : List ℕ) (f : Frame)
    → parse_frame b ≡ ok f
    → (off : ℕ) × (f.flags ≡ byte_at b 1) × (f.dst_type ≡ byte_at b 4) × (f.payload ≡ drop off b)
unfolding parse_frame
parsed-bytes b f e = elim (Result-cases (read_destinations b (byte_at b 4) 12)) [
  | inl ((ds, off), d) ↦ (off, ground (arith, d, e), ground (arith, d, e), ground (arith, d, e))
  | inr (x, d) ↦ absurd (ground (arith, d, e))
]

-- What parses from a slice of bytes is a frame in range: the flags, the kind and each element of the
-- payload are bytes, the other fields and the destinations fit their widths, the destinations are as
-- many as the kind allows, and a broadcast has none.
pub parse_frame-IsInBytes :
    (b : List ℕ) (f : Frame) → All (λ x. x < 256) b → parse_frame b ≡ ok f → IsInBytes f
parse_frame-IsInBytes b f h e =
    let (off, flags, kind, payload) = parsed-bytes b f e in
    record {
      frame = parse_frame-IsFrame b f h e;
      flags = rw flags (byte_at-range b 1 h);
      dst_type = rw kind (byte_at-range b 4 h);
      payload = rw payload (drop-All (λ x. x < 256) off b h);
    }
