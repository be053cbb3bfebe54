-- ===== src/Base/Keys.antt =====
-- The keys of a dictionary, each of which stands in it once.
use Prim.Native.Nat.{suc, ◌≤◌}
use mathlib.Core.Path.{◌≡◌, sym}
use mathlib.Core.Bool.{Bool, true}
use mathlib.Core.Logic.{ite, ◌≢◌, inl, inr}
use mathlib.Core.List.{List, [], ◌∷◌, map}
use mathlib.Core.Option.{some}
use native.Mathlib.Omega.{arith}
use p2p_server.Base.Lists.{All, length}
use p2p_server.Base.Distinct.{Distinct}
use p2p_server.Base.Dict.{lookup, insert, erase}
use p2p_server.Base.Search.{find, any}
use p2p_server.Base.Tests.{Bool-cases}

module _ {K V : Type 0} where
  abbrev pub keys : List (K × V) → List K
  keys = map (λ p. p.0)

module _ {K V : Type 0} (dec : Discrete K) where
  All-keys-insert :
      (P : K → Type 0) (k : K) (v : V) (m : List (K × V))
      → P k
      → All P (keys m)
      → All P (keys (insert dec k v m))
  unfolding insert
  All-keys-insert P k v [] h a = (h, tt)
  All-keys-insert P k v ((j, w) ∷ m) h a =
      elim (dec j k) as (λ d. All P (keys (ite d ((k, v) ∷ m) ((j, w) ∷ insert dec k v m)))) [
        | yes e ↦ (h, a.1)
        | no n ↦ (a.0, All-keys-insert P k v m h a.1)
      ]

  pub Distinct-keys-insert :
      (k : K) (v : V) (m : List (K × V)) → Distinct (keys m) → Distinct (keys (insert dec k v m))
  unfolding insert
  Distinct-keys-insert k v [] d = (tt, tt)
  Distinct-keys-insert k v ((j, w) ∷ m) d =
      elim (dec j k) as (λ e. Distinct (keys (ite e ((k, v) ∷ m) ((j, w) ∷ insert dec k v m)))) [
        | yes e ↦ (rw e at d.0, d.1)
        | no n ↦ (
          All-keys-insert (λ i. i ≢ j) k v m (λ e. n (sym e)) d.0,
          Distinct-keys-insert k v m d.1,
        )
      ]

  All-keys-erase :
      (P : K → Type 0) (k : K) (m : List (K × V)) → All P (keys m) → All P (keys (erase dec k m))
  unfolding erase
  All-keys-erase P k [] a = tt
  All-keys-erase P k ((j, w) ∷ m) a =
      elim (dec j k) as (λ d. All P (keys (ite d (erase dec k m) ((j, w) ∷ erase dec k m)))) [
        | yes e ↦ All-keys-erase P k m a.1
        | no n ↦ (a.0, All-keys-erase P k m a.1)
      ]

  pub Distinct-keys-erase :
      (k : K) (m : List (K × V)) → Distinct (keys m) → Distinct (keys (erase dec k m))
  unfolding erase
  Distinct-keys-erase k [] d = tt
  Distinct-keys-erase k ((j, w) ∷ m) d =
      elim (dec j k) as (λ e. Distinct (keys (ite e (erase dec k m) ((j, w) ∷ erase dec k m)))) [
        | yes e ↦ Distinct-keys-erase k m d.1
        | no n ↦ (All-keys-erase (λ i. i ≢ j) k m d.0, Distinct-keys-erase k m d.1)
      ]

  -- A key in the dictionary is among its keys.
  All-lookup :
      (P : K → Type 0) (k : K) (v : V) (m : List (K × V))
      → All P (keys m)
      → lookup dec k m ≡ some v
      → P k
  unfolding lookup
  All-lookup P k v [] a e = absurd (cc)
  All-lookup P k v ((j, w) ∷ m) a e = elim (dec j k) [
    | yes q ↦ rw q at a.0
    | no n ↦ All-lookup P k v m a.1 (ground (arith, e, n))
  ]

  -- A search over the entries finds one that a lookup finds.
  pub lookup-find :
      (p : K × V → Bool) (k : K) (v : V) (m : List (K × V))
      → Distinct (keys m)
      → find p m ≡ some (k, v)
      → lookup dec k m ≡ some v
  unfolding find lookup
  lookup-find p k v [] d e = absurd (cc)
  lookup-find p k v ((j, w) ∷ m) d e = elim (Bool-cases (p (j, w))) [
    | inl t ↦ ground (arith, e, t)
    | inr t ↦
        let later = lookup-find p k v m d.1 (ground (arith, e, t)) in
        let n : k ≢ j = All-lookup (λ i. i ≢ j) k v m d.0 later in ground (arith, later, n)
  ]

  -- An entry that a lookup finds is met by a search.
  pub any-lookup :
      (p : K × V → Bool) (k : K) (v : V) (m : List (K × V))
      → lookup dec k m ≡ some v
      → p (k, v) ≡ true
      → any p m ≡ true
  unfolding any lookup
  any-lookup p k v [] e h = cc
  any-lookup p k v ((j, w) ∷ m) e h = ground (arith, any-lookup p k v m, e, h)

  pub length-insert :
      (k : K) (v : V) (m : List (K × V)) → length (insert dec k v m) ≤ suc (length m)
  unfolding insert
  length-insert k v [] = omega arith
  length-insert k v ((j, w) ∷ m) = ground (arith, length-insert k v m)

  pub length-erase : (k : K) (m : List (K × V)) → length (erase dec k m) ≤ length m
  unfolding erase
  length-erase k [] = omega arith
  length-erase k ((j, w) ∷ m) = ground (arith, length-erase k m)
