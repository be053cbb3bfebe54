-- ===== src/Base/Table.antt =====
-- The rows of an SQL table in the order of their rowids, under SELECT, UPDATE and DELETE with a
-- WHERE. `keep p` is the SELECT, `keep` of the rows without `p` the DELETE.
use mathlib.Core.Path.{◌≡◌, refl}
use mathlib.Core.Bool.{Bool, true, false, not}
use mathlib.Core.Logic.{inl, inr}
use mathlib.Core.List.{List, [], ◌∷◌, ◌++◌, map}
use mathlib.Core.Option.{none, some}
use native.Mathlib.Omega.{arith}
use p2p_server.Base.Tests.{if◌then◌else◌, Option-cases}
use p2p_server.Base.Search.{find, keep, any}

module _ {ℓ} {A : Type ℓ} where
  -- `UPDATE … SET f WHERE p`
  unfoldable pub update_where : (A → Bool) → (A → A) → List A → List A
  update_where p f [] = []
  update_where p f (x ∷ xs) = (if p x then f x else x) ∷ update_where p f xs

  -- `DELETE … WHERE p`
  abbrev pub delete_where : (A → Bool) → List A → List A
  delete_where p = keep (λ x. not (p x))

  pub keep-append : (p : A → Bool) (xs ys : List A) → keep p (xs ++ ys) ≡ keep p xs ++ keep p ys
  unfolding keep
  keep-append p [] ys = refl
  keep-append p (x ∷ xs) ys = ground (arith, keep-append p xs ys)

  -- An UPDATE of rows that a SELECT sees, before or after it.
  pub keep-update_where_in :
      (p q : A → Bool) (f : A → A) (xs : List A)
      → ((x : A) → q x ≡ true → p x ≡ true)
      → ((x : A) → q x ≡ true → p (f x) ≡ true)
      → keep p (update_where q f xs) ≡ update_where q f (keep p xs)
  unfolding keep update_where
  keep-update_where_in p q f [] h k = refl
  keep-update_where_in p q f (x ∷ xs) h k =
      ground (arith, keep-update_where_in p q f xs h k, h x, k x)

  -- An UPDATE of rows that the SELECT does not see.
  pub keep-update_where_out :
      (p q : A → Bool) (f : A → A) (xs : List A)
      → ((x : A) → q x ≡ true → p x ≡ false)
      → ((x : A) → q x ≡ true → p (f x) ≡ false)
      → keep p (update_where q f xs) ≡ keep p xs
  unfolding keep update_where
  keep-update_where_out p q f [] h k = refl
  keep-update_where_out p q f (x ∷ xs) h k =
      ground (arith, keep-update_where_out p q f xs h k, h x, k x)

  pub keep-keep : (p q : A → Bool) (xs : List A) → keep p (keep q xs) ≡ keep q (keep p xs)
  unfolding keep
  keep-keep p q [] = refl
  keep-keep p q (x ∷ xs) = ground (arith, keep-keep p q xs)

  -- A DELETE of rows that the SELECT does not see.
  pub keep-delete_where_out :
      (p q : A → Bool) (xs : List A)
      → ((x : A) → q x ≡ true → p x ≡ false)
      → keep p (delete_where q xs) ≡ keep p xs
  unfolding keep
  keep-delete_where_out p q [] h = refl
  keep-delete_where_out p q (x ∷ xs) h = ground (arith, keep-delete_where_out p q xs h, h x)

  -- A DELETE of the rows that the SELECT sees.
  pub keep-delete_where_self : (p : A → Bool) (xs : List A) → keep p (delete_where p xs) ≡ []
  unfolding keep
  keep-delete_where_self p [] = refl
  keep-delete_where_self p (x ∷ xs) = ground (arith, keep-delete_where_self p xs)

  -- A search for rows that the SELECT sees, before or after it.
  pub any-keep :
      (p q : A → Bool) (xs : List A)
      → ((x : A) → q x ≡ true → p x ≡ true)
      → any q (keep p xs) ≡ any q xs
  unfolding keep any
  any-keep p q [] h = refl
  any-keep p q (x ∷ xs) h = ground (arith, any-keep p q xs h, h x)

  pub find-keep :
      (p q : A → Bool) (xs : List A)
      → ((x : A) → q x ≡ true → p x ≡ true)
      → find q (keep p xs) ≡ find q xs
  unfolding keep find
  find-keep p q [] h = refl
  find-keep p q (x ∷ xs) h = ground (arith, find-keep p q xs h, h x)

  pub any-find-some : (p : A → Bool) (xs : List A) (x : A) → find p xs ≡ some x → any p xs ≡ true
  unfolding find any
  any-find-some p [] x e = cc
  any-find-some p (y ∷ xs) x e = ground (arith, any-find-some p xs x)

  pub any-find-none : (p : A → Bool) (xs : List A) → find p xs ≡ none → any p xs ≡ false
  unfolding find any
  any-find-none p [] e = refl
  any-find-none p (y ∷ xs) e = ground (arith, any-find-none p xs)

  pub any-find : (p : A → Bool) (xs : List A) → any p xs ≡ true → (x : A) × (find p xs ≡ some x)
  any-find p xs e = elim (Option-cases (find p xs)) [
    | inl f ↦ absurd (ground (arith, e, any-find-none p xs f))
    | inr h ↦ h
  ]

-- Rows that stand for values.
module _ {ℓ} {A B : Type ℓ} (g : A → B) where
  pub any-map :
      (q : B → Bool) (p : A → Bool) (xs : List A)
      → ((x : A) → q (g x) ≡ p x)
      → any q (map g xs) ≡ any p xs
  unfolding any
  any-map q p [] h = refl
  any-map q p (x ∷ xs) h = ground (arith, any-map q p xs h, h x)

  pub find-map-some :
      (q : B → Bool) (p : A → Bool) (xs : List A) (x : A)
      → ((x : A) → q (g x) ≡ p x)
      → find p xs ≡ some x
      → find q (map g xs) ≡ some (g x)
  unfolding find
  find-map-some q p [] x h e = cc
  find-map-some q p (y ∷ xs) x h e = ground (arith, find-map-some q p xs x h, h y)

  pub find-map-none :
      (q : B → Bool) (p : A → Bool) (xs : List A)
      → ((x : A) → q (g x) ≡ p x)
      → find p xs ≡ none
      → find q (map g xs) ≡ none
  unfolding find
  find-map-none q p [] h e = refl
  find-map-none q p (y ∷ xs) h e = ground (arith, find-map-none q p xs h, h y)

  pub keep-map :
      (q : B → Bool) (p : A → Bool) (xs : List A)
      → ((x : A) → q (g x) ≡ p x)
      → keep q (map g xs) ≡ map g (keep p xs)
  unfolding keep
  keep-map q p [] h = refl
  keep-map q p (x ∷ xs) h = ground (arith, keep-map q p xs h, h x)

  pub update_where-map :
      (q : B → Bool) (f : B → B) (p : A → Bool) (k : A → A) (xs : List A)
      → ((x : A) → q (g x) ≡ p x)
      → ((x : A) → p x ≡ true → f (g x) ≡ g (k x))
      → update_where q f (map g xs) ≡ map g (update_where p k xs)
  unfolding update_where
  update_where-map q f p k [] h e = refl
  update_where-map q f p k (x ∷ xs) h e = ground (arith, update_where-map q f p k xs h e, h x, e x)
