-- ===== src/Storage/Sqlite/Canonical.antt =====
-- The order by index of the members that a write leaves.
use p2p_server.Base.{
  ◌≡◌, refl, sym, ◌∙◌, ap, ◌≢◌, Bool, true, false, List, [], ◌∷◌, ◌++◌, map, arith, ltb,
  if◌then◌else◌, All,
}
use p2p_server.Base.Distinct.{Distinct}
use p2p_server.Base.Keyed.{IsTest, update_where-modify_self}
use p2p_server.Base.Search.{modify}
use p2p_server.Base.Table.{update_where}
use p2p_server.Storage.{MemberRecord}
use p2p_server.Storage.Invariant.{indices}
use p2p_server.Storage.Sqlite.Order.{insert_member_at, by_index, All-by_index, All-insert_member_at}

insert_member_at_comm :
    (a b : MemberRecord) (ms : List MemberRecord)
    → a.index ≢ b.index
    → insert_member_at a (insert_member_at b ms) ≡ insert_member_at b (insert_member_at a ms)
unfolding insert_member_at
insert_member_at_comm a b [] n = ground arith
insert_member_at_comm a b (x ∷ xs) n = ground (arith, insert_member_at_comm a b xs n)

by_index-snoc :
    (ms : List MemberRecord) (m : MemberRecord)
    → All (λ i. i ≢ m.index) (indices ms)
    → by_index (ms ++ m ∷ []) ≡ insert_member_at m (by_index ms)
unfolding by_index
by_index-snoc [] m h = refl
by_index-snoc (x ∷ ms) m h =
    ap (insert_member_at x) (by_index-snoc ms m h.1) ∙ insert_member_at_comm x m (by_index ms) h.0

by_index-insert_member_at :
    (m : MemberRecord) (ms : List MemberRecord)
    → All (λ i. i ≢ m.index) (indices ms)
    → by_index (insert_member_at m ms) ≡ insert_member_at m (by_index ms)
unfolding by_index insert_member_at
by_index-insert_member_at m [] h = refl
by_index-insert_member_at m (x ∷ xs) h =
    ground (arith, by_index-insert_member_at m xs h.1, insert_member_at_comm x m (by_index xs) h.0)

pub by_index-by_index :
    (ms : List MemberRecord) → Distinct (indices ms) → by_index (by_index ms) ≡ by_index ms
unfolding by_index
by_index-by_index [] d = refl
by_index-by_index (m ∷ ms) d =
    by_index-insert_member_at m (by_index ms)
      (All-by_index (λ x. x.index) (λ i. i ≢ m.index) ms d.0)
    ∙ ap (insert_member_at m) (by_index-by_index ms d.1)

-- A member added to the members in order.
pub by_index-append :
    (ms : List MemberRecord) (m : MemberRecord)
    → Distinct (indices ms)
    → All (λ i. i ≢ m.index) (indices ms)
    → by_index (by_index ms ++ m ∷ []) ≡ by_index (ms ++ m ∷ [])
by_index-append ms m d h =
    by_index-snoc (by_index ms) m (All-by_index (λ x. x.index) (λ i. i ≢ m.index) ms h)
    ∙ (ap (insert_member_at m) (by_index-by_index ms d) ∙ sym (by_index-snoc ms m h))

module _ (p : MemberRecord → Bool) (f : MemberRecord → MemberRecord)
    (keeps : (m : MemberRecord) → (f m).index ≡ m.index) where
  update_where-insert_member_at :
      (m : MemberRecord) (ms : List MemberRecord)
      → update_where p f (insert_member_at m ms)
        ≡ insert_member_at (if p m then f m else m) (update_where p f ms)
  unfolding update_where insert_member_at
  update_where-insert_member_at m [] = refl
  update_where-insert_member_at m (x ∷ xs) =
      ground (arith, update_where-insert_member_at m xs, keeps x, keeps m)

  by_index-update_where :
      (ms : List MemberRecord) → by_index (update_where p f ms) ≡ update_where p f (by_index ms)
  unfolding by_index update_where
  by_index-update_where [] = refl
  by_index-update_where (m ∷ ms) =
      ap (insert_member_at (if p m then f m else m)) (by_index-update_where ms)
      ∙ sym (update_where-insert_member_at m (by_index ms))

  -- A write to one of the members in order.
  pub by_index-modify :
      {K : Type 0} (key : MemberRecord → K) (k : K) (t : IsTest key k p) (ms : List MemberRecord)
      → Distinct (map key ms)
      → Distinct (map key (by_index ms))
      → Distinct (indices ms)
      → by_index (modify p f (by_index ms)) ≡ by_index (modify p f ms)
  by_index-modify key k t ms d e i =
      rw
        (
          ← update_where-modify_self key p k t f (by_index ms) e,
          ← update_where-modify_self key p k t f ms d,
          by_index-update_where (by_index ms),
          by_index-update_where ms,
          by_index-by_index ms i,
        )
        refl

module _ {K : Type 0} (key : MemberRecord → K) where
  Distinct-insert_member_at :
      (m : MemberRecord) (ms : List MemberRecord)
      → All (λ j. j ≢ key m) (map key ms)
      → Distinct (map key ms)
      → Distinct (map key (insert_member_at m ms))
  unfolding insert_member_at
  Distinct-insert_member_at m [] h d = (tt, tt)
  Distinct-insert_member_at m (x ∷ xs) h d =
      elim (ltb x.index m.index)
        as (λ b. Distinct (map key (if b then x ∷ insert_member_at m xs else m ∷ x ∷ xs))) [
          | true ↦ (
            All-insert_member_at key (λ j. j ≢ key x) m xs (λ e. h.0 (sym e)) d.0,
            Distinct-insert_member_at m xs h.1 d.1,
          )
          | false ↦ (h, d)
        ]

  pub Distinct-by_index :
      (ms : List MemberRecord) → Distinct (map key ms) → Distinct (map key (by_index ms))
  unfolding by_index
  Distinct-by_index [] d = tt
  Distinct-by_index (m ∷ ms) d =
      Distinct-insert_member_at m (by_index ms) (All-by_index key (λ j. j ≢ key m) ms d.0)
        (Distinct-by_index ms d.1)
