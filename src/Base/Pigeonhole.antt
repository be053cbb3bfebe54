-- ===== src/Base/Pigeonhole.antt =====
-- More numbers than elements: if each element fits one number at most, some number fits none.
use Prim.Native.Nat.{ℕ, zero, suc, ◌+◌, ◌≤◌, ◌<◌}
use mathlib.Core.Path.{◌≡◌}
use mathlib.Core.Bool.{Bool, true, false}
use mathlib.Core.Logic.{inl, inr}
use mathlib.Core.List.{List, [], ◌∷◌}
use native.Mathlib.Omega.{arith}
use p2p_server.Base.Lists.{length}
use p2p_server.Base.Tests.{Bool-cases}
use p2p_server.Base.Search.{any, remove_first}

module _ {ℓ} {A : Type ℓ} where
  length-remove_first :
      (p : A → Bool) (xs : List A) → any p xs ≡ true → length xs ≡ suc (length (remove_first p xs))
  unfolding any remove_first
  length-remove_first p [] h = cc
  length-remove_first p (x ∷ xs) h = ground (arith, length-remove_first p xs)

  any-remove_first :
      (p q : A → Bool)
      → ((x : A) → p x ≡ true → q x ≡ false)
      → (xs : List A) → any q xs ≡ true
      → any q (remove_first p xs) ≡ true
  unfolding any remove_first
  any-remove_first p q apart [] h = h
  any-remove_first p q apart (x ∷ xs) h = ground (arith, apart x, any-remove_first p q apart xs)

  -- If each of the `n` numbers from `lo` on fits an element, there are `n` elements at least.
  pub pigeonhole :
      (q : ℕ → A → Bool)
      → ((i j : ℕ) (x : A) → q i x ≡ true → q j x ≡ true → i ≡ j)
      → (xs : List A) (n lo : ℕ) → ((j : ℕ) → lo ≤ j → j < lo + n → any (q j) xs ≡ true)
      → n ≤ length xs
  pigeonhole q once xs zero lo h = omega arith
  pigeonhole q once xs (suc n) lo h =
      let hit = h lo (omega arith) (omega arith) in
      omega (
        arith,
        length-remove_first (q lo) xs hit,
        pigeonhole q once (remove_first (q lo) xs) n (suc lo) (λ j low high.
            any-remove_first (q lo) (q j) (apart j (omega arith)) xs
              (h j (omega arith) (omega arith))),
      )
    where
      apart : (j : ℕ) → lo < j → (x : A) → q lo x ≡ true → q j x ≡ false
      apart j lt x e = elim (Bool-cases (q j x)) [
        | inl t ↦ absurd (omega (arith, once lo j x e t))
        | inr f ↦ f
      ]
