-- ===== src/Base/Distinct.antt =====
-- Lists whose elements differ in a key, and what the loops of `Search` do to the keys.
use mathlib.Core.Path.{◌≡◌, refl, sym}
use mathlib.Core.Bool.{Bool, false}
use mathlib.Core.Logic.{◌≢◌, inl, inr}
use mathlib.Core.List.{List, [], ◌∷◌, ◌++◌, map}
use mathlib.Core.Option.{none, some}
use native.Mathlib.Omega.{arith}
use p2p_server.Base.Tests.{Bool-cases}
use p2p_server.Base.Lists.{All}
use p2p_server.Base.Search.{find, modify, remove_first}

module _ {K : Type 0} where
  abbrev pub Distinct : List K → Type 0
  Distinct [] = Unit {0}
  Distinct (k ∷ ks) = All (λ j. j ≢ k) ks × Distinct ks

  pub Distinct-snoc :
      (ks : List K) (k : K) → Distinct ks → All (λ j. j ≢ k) ks → Distinct (ks ++ k ∷ [])
  Distinct-snoc [] k d a = (tt, tt)
  Distinct-snoc (j ∷ ks) k d a = (All-snoc ks d.0 (λ e. a.0 (sym e)), Distinct-snoc ks k d.1 a.1)
    where
      All-snoc : (js : List K) → All (λ i. i ≢ j) js → k ≢ j → All (λ i. i ≢ j) (js ++ k ∷ [])
      All-snoc [] h n = (n, tt)
      All-snoc (i ∷ js) h n = (h.0, All-snoc js h.1 n)

module _ {A K : Type 0} (p : A → Bool) (key : A → K) where
  -- A write to the element found that leaves its key leaves all keys.
  pub map-modify :
      (f : A → A) (xs : List A) (c : A)
      → find p xs ≡ some c
      → key (f c) ≡ key c
      → map key (modify p f xs) ≡ map key xs
  unfolding find modify
  map-modify f [] c e h = refl
  map-modify f (x ∷ xs) c e h = ground (arith, map-modify f xs c)

  pub All-remove_first :
      (P : K → Type 0) (xs : List A) → All P (map key xs) → All P (map key (remove_first p xs))
  unfolding remove_first
  All-remove_first P [] h = h
  All-remove_first P (x ∷ xs) h = elim (Bool-cases (p x)) [
    | inl e ↦ rw e h.1
    | inr e ↦ rw e (h.0, All-remove_first P xs h.1)
  ]

  pub Distinct-remove_first :
      (xs : List A) → Distinct (map key xs) → Distinct (map key (remove_first p xs))
  unfolding remove_first
  Distinct-remove_first [] d = tt
  Distinct-remove_first (x ∷ xs) d = elim (Bool-cases (p x)) [
    | inl e ↦ rw e d.1
    | inr e ↦ rw e (All-remove_first (λ j. j ≢ key x) xs d.0, Distinct-remove_first xs d.1)
  ]

  -- A search by key that finds nothing tells the key from every element's.
  pub All-find-none :
      (k : K)
      → ((x : A) → p x ≡ false → key x ≢ k)
      → (xs : List A) → find p xs ≡ none
      → All (λ j. j ≢ k) (map key xs)
  unfolding find
  All-find-none k h [] e = tt
  All-find-none k h (x ∷ xs) e = elim (Bool-cases (p x)) [
    | inl t ↦ absurd (ground arith)
    | inr t ↦ (h x t, All-find-none k h xs (ground arith))
  ]
