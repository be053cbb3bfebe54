-- ===== src/Storage/Listing/Whole.antt =====
-- `List` without a filter and a limit: what the list holds of a map whose keys differ.
use p2p_server.Base.{
  ℕ, ◌+◌, ◌≡◌, ◌≢◌, refl, sym, inl, inr, String, false, none, some, List, [], ◌∷◌, map, arith, All,
  ltb, Bool-cases, String_discrete,
}
use p2p_server.Base.Dict.{lookup}
use p2p_server.Base.Distinct.{Distinct}
use p2p_server.Base.Keys.{keys}
use p2p_server.Storage.{SessionRecord, ListFilter}
use p2p_server.Storage.Listing.{collect, insert_by_age, sort_by_age, list_sessions}

abbrev pub every : ListFilter
every = record { expired_before = 0; closed_only = false; limit = 0 }

abbrev Sessions : Type 0
Sessions = List (String × SessionRecord)

abbrev records : Sessions → List SessionRecord
records = map (λ p. p.1)

abbrev pub session_ids : List SessionRecord → List String
session_ids = map (λ r. r.id)

collect-every : (n : ℕ) (m : Sessions) → collect every n m ≡ records m
unfolding collect
collect-every n [] = refl
collect-every n ((_, rec) ∷ m) = ground (arith, collect-every n m, collect-every (n + 1) m)

-- What holds of all records before the sort holds of all after it, and back.
All-insert_by_age :
    (P : SessionRecord → Type 0) (r : SessionRecord) (rs : List SessionRecord)
    → P r
    → All P rs
    → All P (insert_by_age r rs)
unfolding insert_by_age
All-insert_by_age P r [] h a = (h, tt)
All-insert_by_age P r (x ∷ xs) h a = elim (Bool-cases (ltb x.created_at r.created_at)) [
  | inl e ↦ rw e (a.0, All-insert_by_age P r xs h a.1)
  | inr e ↦ rw e (h, a)
]

All-sort_by_age :
    (P : SessionRecord → Type 0) (rs : List SessionRecord) → All P rs → All P (sort_by_age rs)
unfolding sort_by_age
All-sort_by_age P [] a = tt
All-sort_by_age P (r ∷ rs) a = All-insert_by_age P r (sort_by_age rs) a.0 (All-sort_by_age P rs a.1)

All-inserted :
    (P : SessionRecord → Type 0) (r : SessionRecord) (rs : List SessionRecord)
    → All P (insert_by_age r rs)
    → P r × All P rs
unfolding insert_by_age
All-inserted P r [] a = (a.0, tt)
All-inserted P r (x ∷ xs) a = elim (Bool-cases (ltb x.created_at r.created_at)) [
  | inl e ↦ let b = rw e at a in let (h, c) = All-inserted P r xs b.1 in (h, (b.0, c))
  | inr e ↦ rw e at a
]

All-sorted :
    (P : SessionRecord → Type 0) (rs : List SessionRecord) → All P (sort_by_age rs) → All P rs
unfolding sort_by_age
All-sorted P [] a = tt
All-sorted P (r ∷ rs) a = let (h, b) = All-inserted P r (sort_by_age rs) a in (h, All-sorted P rs b)

-- A statement on the IDs is one on the records.
All-ids :
    (P : String → Type 0) (rs : List SessionRecord) → All (λ r. P r.id) rs → All P (session_ids rs)
All-ids P [] a = tt
All-ids P (r ∷ rs) a = (a.0, All-ids P rs a.1)

All-of_ids :
    (P : String → Type 0) (rs : List SessionRecord) → All P (session_ids rs) → All (λ r. P r.id) rs
All-of_ids P [] a = tt
All-of_ids P (r ∷ rs) a = (a.0, All-of_ids P rs a.1)

Distinct-insert_by_age :
    (r : SessionRecord) (rs : List SessionRecord)
    → All (λ x. x.id ≢ r.id) rs
    → Distinct (session_ids rs)
    → Distinct (session_ids (insert_by_age r rs))
unfolding insert_by_age
Distinct-insert_by_age r [] a d = (tt, tt)
Distinct-insert_by_age r (x ∷ xs) a d = elim (Bool-cases (ltb x.created_at r.created_at)) [
  | inl e ↦
      let apart = All-of_ids (λ j. j ≢ x.id) xs d.0 in
      rw e (
        All-ids (λ j. j ≢ x.id) (insert_by_age r xs)
            (All-insert_by_age (λ y. y.id ≢ x.id) r xs (λ p. a.0 (sym p)) apart),
        Distinct-insert_by_age r xs a.1 d.1,
      )
  | inr e ↦ rw e (All-ids (λ j. j ≢ r.id) (x ∷ xs) a, d)
]

Distinct-sort_by_age :
    (rs : List SessionRecord) → Distinct (session_ids rs) → Distinct (session_ids (sort_by_age rs))
unfolding sort_by_age
Distinct-sort_by_age [] d = tt
Distinct-sort_by_age (r ∷ rs) d =
    Distinct-insert_by_age r (sort_by_age rs)
      (All-sort_by_age (λ x. x.id ≢ r.id) rs (All-of_ids (λ j. j ≢ r.id) rs d.0))
      (Distinct-sort_by_age rs d.1)

-- The records of a map in which each is under its ID.
abbrev pub IsKeyed : Sessions → Type 0
IsKeyed m = All (λ p. (p.1).id ≡ p.0) m

session_ids-records : (m : Sessions) → IsKeyed m → session_ids (records m) ≡ keys m
session_ids-records [] k = refl
session_ids-records ((i, r) ∷ m) k = rw (k.0, session_ids-records m k.1) refl

All-found :
    (P : SessionRecord → Type 0) (m : Sessions) (sid : String) (rec : SessionRecord)
    → lookup String_discrete sid m ≡ some rec
    → All P (records m)
    → P rec
unfolding lookup
All-found P [] sid rec e a = absurd (cc)
All-found P ((i, r) ∷ m) sid rec e a = elim (String_discrete i sid) [
  | yes p ↦ let one : r ≡ rec = ground (arith, e, p) in rw (← one) a.0
  | no n ↦ All-found P m sid rec (ground (arith, e, n)) a.1
]

All-absent :
    (m : Sessions) (sid : String)
    → lookup String_discrete sid m ≡ none
    → All (λ i. i ≢ sid) (keys m)
unfolding lookup
All-absent [] sid e = tt
All-absent ((i, r) ∷ m) sid e = elim (String_discrete i sid) [
  | yes p ↦ absurd (ground (arith, e, p))
  | no n ↦ (n, All-absent m sid (ground (arith, e, n)))
]

-- Each entry of a map whose keys differ is found under its key.
pub All-entries :
    (m : Sessions) → Distinct (keys m) → All (λ p. lookup String_discrete p.0 m ≡ some p.1) m
unfolding lookup
All-entries [] d = tt
All-entries ((i, r) ∷ m) d = (ground arith, later m d.0 (All-entries m d.1))
  where
    later :
        (n : Sessions)
        → All (λ j. j ≢ i) (keys n)
        → All (λ p. lookup String_discrete p.0 m ≡ some p.1) n
        → All (λ p. lookup String_discrete p.0 ((i, r) ∷ m) ≡ some p.1) n
    later [] a f = tt
    later (x ∷ n) a f = (ground (arith, f.0, a.0), later n a.1 f.1)

pub All-records :
    (P : SessionRecord → Type 0) (m : Sessions) → All (λ p. P p.1) m → All P (records m)
All-records P [] a = tt
All-records P (p ∷ m) a = (a.0, All-records P m a.1)

module _ (m : Sessions) where
  pub list_sessions-All :
      (P : SessionRecord → Type 0) → All P (records m) → All P (list_sessions every m)
  unfolding list_sessions
  list_sessions-All P a = All-sort_by_age P (collect every 0 m) (rw (collect-every 0 m) a)

  -- A statement on the list holds of each record that the map has.
  pub All-listed :
      (P : SessionRecord → Type 0) (sid : String) (rec : SessionRecord)
      → lookup String_discrete sid m ≡ some rec
      → All P (list_sessions every m)
      → P rec
  unfolding list_sessions
  All-listed P sid rec e a =
      All-found P m sid rec e (rw (collect-every 0 m) at (All-sorted P (collect every 0 m) a))

  module _ (d : Distinct (keys m)) (k : IsKeyed m) where
    pub list_sessions-Distinct : Distinct (session_ids (list_sessions every m))
    unfolding list_sessions
    list_sessions-Distinct =
        Distinct-sort_by_age (collect every 0 m) (rw (collect-every 0 m, session_ids-records m k) d)

    -- A key that the map does not have is the ID of no record of the list.
    pub list_sessions-absent :
        (sid : String)
        → lookup String_discrete sid m ≡ none
        → All (λ i. i ≢ sid) (session_ids (list_sessions every m))
    list_sessions-absent sid e =
        All-ids (λ i. i ≢ sid) (list_sessions every m)
          (list_sessions-All (λ r. r.id ≢ sid)
            (All-of_ids (λ i. i ≢ sid) (records m)
              (rw (session_ids-records m k) (All-absent m sid e))))
