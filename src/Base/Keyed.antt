-- ===== src/Base/Keyed.antt =====
-- Statements on a table whose rows differ in a key: a WHERE on the key is a search for its row.
use mathlib.Core.Path.{◌≡◌, refl, sym, ◌∙◌, ap}
use mathlib.Core.Bool.{Bool, true, false}
use mathlib.Core.Logic.{◌≢◌, inl, inr}
use mathlib.Core.List.{List, [], ◌∷◌, map}
use mathlib.Core.Option.{some}
use native.Mathlib.Omega.{arith}
use p2p_server.Base.Tests.{Bool-cases}
use p2p_server.Base.Lists.{All}
use p2p_server.Base.Search.{find, modify, remove_first, keep}
use p2p_server.Base.Distinct.{Distinct}
use p2p_server.Base.Table.{update_where, delete_where}

-- `q` is the test for the key `k`.
pub record IsTest {A K : Type 0} (key : A → K) (k : K) (q : A → Bool) : Type 0 where
  pub sound : (x : A) → q x ≡ true → key x ≡ k
  pub complete : (x : A) → key x ≡ k → q x ≡ true

module _ {A K : Type 0} (key : A → K) where
  pub All-find :
      (P : K → Type 0) (p : A → Bool) (xs : List A) (c : A)
      → All P (map key xs)
      → find p xs ≡ some c
      → P (key c)
  unfolding find
  All-find P p [] c h e = absurd (cc)
  All-find P p (x ∷ xs) c h e = elim (Bool-cases (p x)) [
    | inl t ↦ let same_one : x ≡ c = ground (arith, e, t) in rw (← same_one) h.0
    | inr t ↦ All-find P p xs c h.1 (ground (arith, e, t))
  ]

  module _ (q : A → Bool) (k : K) (t : IsTest key k q) where
    differs : (x : A) → key x ≢ k → q x ≡ false
    differs x n = elim (Bool-cases (q x)) [ inl e ↦ absurd (n (t.sound x e)) | inr e ↦ e ]

    -- No row has the key.
    pub update_where-none :
        (f : A → A) (xs : List A) → All (λ j. j ≢ k) (map key xs) → update_where q f xs ≡ xs
    unfolding update_where
    update_where-none f [] h = refl
    update_where-none f (x ∷ xs) h = ground (arith, differs x h.0, update_where-none f xs h.1)

    pub delete_where-none : (xs : List A) → All (λ j. j ≢ k) (map key xs) → delete_where q xs ≡ xs
    unfolding keep
    delete_where-none [] h = refl
    delete_where-none (x ∷ xs) h = ground (arith, differs x h.0, delete_where-none xs h.1)

    -- A DELETE by key takes the row found.
    pub delete_where-remove_first :
        (xs : List A) → Distinct (map key xs) → delete_where q xs ≡ remove_first q xs
    unfolding keep remove_first
    delete_where-remove_first [] d = refl
    delete_where-remove_first (x ∷ xs) d = elim (Bool-cases (q x)) [
      | inl e ↦ ground (arith, e, delete_where-none xs (rw (t.sound x e) at d.0))
      | inr e ↦ ground (arith, e, delete_where-remove_first xs d.1)
    ]

    -- An UPDATE by the key of a row found writes that row.
    pub update_where-modify :
        (p : A → Bool) (f : A → A) (xs : List A) (c : A)
        → Distinct (map key xs)
        → find p xs ≡ some c
        → key c ≡ k
        → update_where q (λ _. f c) xs ≡ modify p f xs
    unfolding update_where modify find
    update_where-modify p f [] c d e h = refl
    update_where-modify p f (x ∷ xs) c d e h = elim (Bool-cases (p x)) [
      | inl s ↦
          let same_one : x ≡ c = ground (arith, e, s) in
          let here : key x ≡ k = ap key same_one ∙ h in
          ground (
            arith,
            s,
            same_one,
            t.complete x here,
            update_where-none (λ _. f c) xs (rw here at d.0),
          )
      | inr s ↦
          let later : find p xs ≡ some c = ground (arith, e, s) in
          let n : key c ≢ key x = All-find (λ j. j ≢ key x) p xs c d.0 later in
          ground
            (arith, s, differs x (λ z. n (h ∙ sym z)), update_where-modify p f xs c d.1 later h)
    ]

    -- An UPDATE by key writes the row found.
    pub update_where-modify_self :
        (f : A → A) (xs : List A) → Distinct (map key xs) → update_where q f xs ≡ modify q f xs
    unfolding update_where modify
    update_where-modify_self f [] d = refl
    update_where-modify_self f (x ∷ xs) d = elim (Bool-cases (q x)) [
      | inl e ↦ ground (arith, e, update_where-none f xs (rw (t.sound x e) at d.0))
      | inr e ↦ ground (arith, e, update_where-modify_self f xs d.1)
    ]

    -- A row found is also found by its key.
    pub find-key :
        (p : A → Bool) (xs : List A) (c : A)
        → Distinct (map key xs)
        → find p xs ≡ some c
        → key c ≡ k
        → find q xs ≡ some c
    unfolding find
    find-key p [] c d e h = absurd (cc)
    find-key p (x ∷ xs) c d e h = elim (Bool-cases (p x)) [
      | inl s ↦
          let same_one : x ≡ c = ground (arith, e, s) in
          ground (arith, same_one, t.complete x (ap key same_one ∙ h))
      | inr s ↦
          let later : find p xs ≡ some c = ground (arith, e, s) in
          let n : key c ≢ key x = All-find (λ j. j ≢ key x) p xs c d.0 later in
          ground (arith, differs x (λ z. n (h ∙ sym z)), find-key p xs c d.1 later h)
    ]
