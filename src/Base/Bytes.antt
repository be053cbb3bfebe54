-- ===== src/Base/Bytes.antt =====
-- Byte slices: reads and writes at offsets, and big-endian integers.
use Prim.Native.Nat.{ℕ, zero, suc, ◌+◌, ◌*◌, ◌/◌, ◌%◌, ◌<◌}
use mathlib.Core.Path.{◌≡◌, refl, ap, ◌∙◌}
use mathlib.Core.List.{List, [], ◌∷◌, ◌++◌}
use native.Mathlib.Omega.{arith}
use p2p_server.Base.Lists.{length, drop}

abbrev pub replicate : ℕ → ℕ → List ℕ
replicate zero a = []
replicate (suc n) a = a ∷ replicate n a

-- `b[i]`, where the code has tested that `i` is in range.
abbrev pub byte_at : List ℕ → ℕ → ℕ
byte_at [] i = 0
byte_at (x ∷ xs) zero = x
byte_at (x ∷ xs) (suc i) = byte_at xs i

-- `copy(dst, src)`: as many bytes as both have.
unfoldable pub copy : List ℕ → List ℕ → List ℕ
copy [] src = []
copy (x ∷ dst) [] = x ∷ dst
copy (x ∷ dst) (y ∷ src) = y ∷ copy dst src

-- `copy(buf[off:], src)`
unfoldable pub copy_at : List ℕ → ℕ → List ℕ → List ℕ
copy_at buf zero src = copy buf src
copy_at [] (suc off) src = []
copy_at (x ∷ buf) (suc off) src = x ∷ copy_at buf off src

-- `binary.BigEndian.PutUint16` and `PutUint32` of a value in range.
abbrev pub put_u16 : ℕ → List ℕ
put_u16 v = (v / 256) % 256 ∷ v % 256 ∷ []

abbrev pub put_u32 : ℕ → List ℕ
put_u32 v = (v / 16777216) % 256 ∷ (v / 65536) % 256 ∷ (v / 256) % 256 ∷ v % 256 ∷ []

abbrev pub u16_at : List ℕ → ℕ → ℕ
u16_at b i = byte_at b i * 256 + byte_at b (i + 1)

abbrev pub u32_at : List ℕ → ℕ → ℕ
u32_at b i =
    byte_at b i * 16777216 + byte_at b (i + 1) * 65536 + byte_at b (i + 2) * 256 + byte_at b (i + 3)

pub length-replicate : (n a : ℕ) → length (replicate n a) ≡ n
length-replicate zero a = refl
length-replicate (suc n) a = ap suc (length-replicate n a)

pub replicate-add : (n m a : ℕ) → replicate (n + m) a ≡ replicate n a ++ replicate m a
replicate-add zero m a = ap (λ k. replicate k a) (omega arith)
replicate-add (suc n) m a = ap (λ k. replicate k a) e ∙ ap (◌∷◌ a) (replicate-add n m a)
  where
    e : suc n + m ≡ suc (n + m)
    e = omega arith

-- A copy into a buffer of the source's length is the source.
pub copy_full : (buf src : List ℕ) → length buf ≡ length src → copy buf src ≡ src
unfolding copy
copy_full [] [] h = refl
copy_full [] (y ∷ src) h = absurd (omega arith)
copy_full (x ∷ buf) [] h = absurd (omega arith)
copy_full (x ∷ buf) (y ∷ src) h = ap (◌∷◌ y) (copy_full buf src (omega arith))

pub copy_nil : (buf : List ℕ) → copy buf [] ≡ buf
unfolding copy
copy_nil [] = refl
copy_nil (x ∷ buf) = refl

-- A copy over a prefix leaves what follows.
pub copy-append :
    (pre post src : List ℕ) → length pre ≡ length src → copy (pre ++ post) src ≡ src ++ post
unfolding copy
copy-append [] [] [] h = refl
copy-append [] (x ∷ post) [] h = refl
copy-append [] post (y ∷ src) h = absurd (omega arith)
copy-append (x ∷ pre) post [] h = absurd (omega arith)
copy-append (x ∷ pre) post (y ∷ src) h = ap (◌∷◌ y) (copy-append pre post src (omega arith))

pub copy_at-append :
    (pre buf src : List ℕ) (off : ℕ)
    → off ≡ length pre
    → copy_at (pre ++ buf) off src ≡ pre ++ copy buf src
unfolding copy_at
copy_at-append [] buf src zero h = refl
copy_at-append [] buf src (suc off) h = absurd (omega arith)
copy_at-append (x ∷ pre) buf src zero h = absurd (omega arith)
copy_at-append (x ∷ pre) buf src (suc off) h =
    ap (◌∷◌ x) (copy_at-append pre buf src off (omega arith))

pub drop-append : (pre post : List ℕ) (n : ℕ) → n ≡ length pre → drop n (pre ++ post) ≡ post
drop-append [] post zero h = refl
drop-append [] post (suc n) h = absurd (omega arith)
drop-append (x ∷ pre) post zero h = absurd (omega arith)
drop-append (x ∷ pre) post (suc n) h = drop-append pre post n (omega arith)

pub byte_at-append :
    (pre post : List ℕ) (n k : ℕ) → n ≡ length pre + k → byte_at (pre ++ post) n ≡ byte_at post k
byte_at-append [] post n k h = ap (byte_at post) (omega arith)
byte_at-append (x ∷ pre) post zero k h = absurd (omega arith)
byte_at-append (x ∷ pre) post (suc n) k h = byte_at-append pre post n k (omega arith)

pub length-copy : (buf src : List ℕ) → length (copy buf src) ≡ length buf
unfolding copy
length-copy [] src = refl
length-copy (x ∷ buf) [] = refl
length-copy (x ∷ buf) (y ∷ src) = ap suc (length-copy buf src)

pub u16_range : (v : ℕ) → v < 65536 → ((v / 256) % 256) * 256 + v % 256 ≡ v
u16_range v h = omega arith

pub u32_range :
    (v : ℕ)
    → v < 4294967296
    → ((v / 16777216) % 256) * 16777216
        + ((v / 65536) % 256) * 65536
        + ((v / 256) % 256) * 256
        + v % 256
      ≡ v
u32_range v h = omega arith

pub length-copy_at :
    (buf : List ℕ) (off : ℕ) (src : List ℕ) → length (copy_at buf off src) ≡ length buf
unfolding copy_at
length-copy_at buf zero src = length-copy buf src
length-copy_at [] (suc off) src = refl
length-copy_at (x ∷ buf) (suc off) src = ap suc (length-copy_at buf off src)
