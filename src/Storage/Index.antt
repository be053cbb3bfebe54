-- ===== src/Storage/Index.antt =====
-- The indices that `freeIndex` finds.
use p2p_server.Base.{
  ℕ, zero, suc, ◌+◌, ◌%◌, ◌≤◌, ◌<◌, ◌≡◌, refl, ◌≢◌, true, false, Bool-cases, ◌⊎◌, inl, inr, List,
  arith, length, ◌==◌, ℕ_discrete, sym,
}
use mathlib.Core.Path.{subst}
use native.Mathlib.Decide.{dec_lt}
use p2p_server.Base.Pigeonhole.{pigeonhole}
use p2p_server.Storage.{MemberRecord, SessionRecord, is_used, free_index_from, free_index}

-- What the loop finds from `i` on: the least free index, or 0 if all are used.
pub record FreeFrom (ms : List MemberRecord) (lo r : ℕ) : Type 0 where
  pub range : r ≢ 0 → (lo ≤ r) × (r < 65536)
  pub free : r ≢ 0 → is_used ms r ≡ false
  pub least : (j : ℕ) → lo ≤ j → j < 65536 → (r ≡ 0) ⊎ (j < r) → is_used ms j ≡ true

-- One round on an index in use, and on one that is free.
used_round :
    (ms : List MemberRecord) (i r : ℕ)
    → is_used ms i ≡ true
    → FreeFrom ms (i + 1) r
    → FreeFrom ms i r
used_round ms i r u v = record {
  range = λ n. (omega (arith, v.range n), (v.range n).1);
  free = v.free;
  least =
      λ j lo hi c. elim (ℕ_discrete j i) [ yes e ↦ rw e u | no n ↦ v.least j (omega arith) hi c ];
}

free_round :
    (ms : List MemberRecord) (i : ℕ) → 1 ≤ i → i < 65536 → is_used ms i ≡ false → FreeFrom ms i i
free_round ms i lo hi u = record {
  range = λ _. (omega arith, hi);
  free = λ _. u;
  least = λ j l h c. absurd (omega arith);
}

last_round : (ms : List MemberRecord) → is_used ms 65535 ≡ true → FreeFrom ms 65535 0
last_round ms u = record {
  range = λ n. absurd (n refl);
  free = λ n. absurd (n refl);
  least = λ j lo hi c. let e : j ≡ 65535 = omega arith in rw e u;
}

wrapped : (ms : List MemberRecord) (rounds : ℕ) → free_index_from ms rounds 0 ≡ 0
unfolding free_index_from
wrapped ms zero = refl
wrapped ms (suc n) = refl

free_index_from-FreeFrom :
    (ms : List MemberRecord) (rounds i : ℕ)
    → i + rounds ≡ 65537
    → 1 ≤ i
    → i < 65536
    → FreeFrom ms i (free_index_from ms rounds i)
unfolding free_index_from
free_index_from-FreeFrom ms zero i e lo hi = absurd (omega arith)
free_index_from-FreeFrom ms (suc n) i e lo hi =
    let nz : (i == 0) ≡ false = ground arith in
    elim (Bool-cases (is_used ms i)) [
      | inr u ↦ rw (nz, u) (free_round ms i lo hi u)
      | inl u ↦
          rw (nz, u)
            (elim (dec_lt i 65535) [
              | yes h ↦
                  let m : (i + 1) % 65536 ≡ i + 1 = omega arith in
                  rw m (
                    used_round ms i _ u (
                      free_index_from-FreeFrom ms n (i + 1) (omega arith) (omega arith)
                        (omega arith)))
              | no h ↦
                  let m : (i + 1) % 65536 ≡ 0 = omega arith in
                  let top : i ≡ 65535 = omega arith in
                  rw (m, wrapped ms n)
                    (subst (λ k. FreeFrom ms k 0) (sym top)
                      (last_round ms (subst (λ k. is_used ms k ≡ true) top u)))
            ])
    ]

-- The index given out is the least of 1 to 65535 that no member has, and 0 only if all are taken.
pub free_index-FreeFrom : (s : SessionRecord) → FreeFrom s.members 1 (free_index s)
unfolding free_index
free_index-FreeFrom s =
    free_index_from-FreeFrom s.members 65536 1 (omega arith) (omega arith) (omega arith)

index_once : (i j : ℕ) (m : MemberRecord) → (m.index == i) ≡ true → (m.index == j) ≡ true → i ≡ j
index_once i j m e h = ground arith

-- A session of fewer than 65535 members has a free index.
pub free_index-ne-zero : (s : SessionRecord) → length s.members < 65535 → free_index s ≢ 0
free_index-ne-zero s h e = absurd (omega (arith, full))
  where
    full : 65535 ≤ length s.members
    full =
        pigeonhole (λ i m. m.index == i) index_once s.members 65535 1
          (λ j lo hi. (free_index-FreeFrom s).least j lo hi (inl e))
