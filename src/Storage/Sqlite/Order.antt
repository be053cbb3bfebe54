-- ===== src/Storage/Sqlite/Order.antt =====
-- What the order of a session's members leaves alone: the searches, the counts and the index and
-- ID that the next member gets.
use p2p_server.Base.{
  ℕ, zero, suc, ◌+◌, ◌%◌, ◌≡◌, refl, ◌≢◌, String, Bool, true, false, List, [], ◌∷◌, map, arith,
  length, ltb, ◌==◌, if◌then◌else◌, All,
}
use p2p_server.Base.Distinct.{Distinct}
use p2p_server.Base.Search.{find, count, any}
use p2p_server.Storage.{
  Env, MemberRecord, SessionRecord, is_used, has_id, has_node_id, member_by_id, member_by_node_id,
  free_index_from, free_index,
}
use p2p_server.Base.Texts.{append, itoa}
use p2p_server.Storage.Ids.{random_token, draw_id, number_id, new_member_id}
use p2p_server.Storage.Invariant.{AreMembers}

unfoldable pub insert_member_at : MemberRecord → List MemberRecord → List MemberRecord
insert_member_at m [] = m ∷ []
insert_member_at m (x ∷ xs) = if ltb x.index m.index then x ∷ insert_member_at m xs else m ∷ x ∷ xs

-- The members by index.
unfoldable pub by_index : List MemberRecord → List MemberRecord
by_index [] = []
by_index (m ∷ ms) = insert_member_at m (by_index ms)

-- The session with its members by index.
abbrev pub ordered : SessionRecord → SessionRecord
ordered rec = record rec { members = by_index rec.members }

count-insert_member_at :
    (p : MemberRecord → Bool) (m : MemberRecord) (ms : List MemberRecord)
    → count p (insert_member_at m ms) ≡ count p (m ∷ ms)
unfolding count insert_member_at
count-insert_member_at p m [] = refl
count-insert_member_at p m (x ∷ xs) = ground (arith, count-insert_member_at p m xs)

pub count-by_index :
    (p : MemberRecord → Bool) (ms : List MemberRecord) → count p (by_index ms) ≡ count p ms
unfolding count by_index
count-by_index p [] = refl
count-by_index p (m ∷ ms) =
    ground (arith, count-insert_member_at p m (by_index ms), count-by_index p ms)

any-insert_member_at :
    (p : MemberRecord → Bool) (m : MemberRecord) (ms : List MemberRecord)
    → any p (insert_member_at m ms) ≡ any p (m ∷ ms)
unfolding any insert_member_at
any-insert_member_at p m [] = refl
any-insert_member_at p m (x ∷ xs) = ground (arith, any-insert_member_at p m xs)

pub any-by_index :
    (p : MemberRecord → Bool) (ms : List MemberRecord) → any p (by_index ms) ≡ any p ms
unfolding any by_index
any-by_index p [] = refl
any-by_index p (m ∷ ms) = ground (arith, any-insert_member_at p m (by_index ms), any-by_index p ms)

length-insert_member_at :
    (m : MemberRecord) (ms : List MemberRecord) → length (insert_member_at m ms) ≡ suc (length ms)
unfolding insert_member_at
length-insert_member_at m [] = refl
length-insert_member_at m (x ∷ xs) = ground (arith, length-insert_member_at m xs)

pub length-by_index : (ms : List MemberRecord) → length (by_index ms) ≡ length ms
unfolding by_index
length-by_index [] = refl
length-by_index (m ∷ ms) =
    ground (arith, length-insert_member_at m (by_index ms), length-by_index ms)

module _ (P : MemberRecord → Type 0) where
  All-insert_member :
      (m : MemberRecord) (ms : List MemberRecord) → P m → All P ms → All P (insert_member_at m ms)
  unfolding insert_member_at
  All-insert_member m [] h k = (h, tt)
  All-insert_member m (x ∷ xs) h k =
      elim (ltb x.index m.index)
        as (λ b. All P (if b then x ∷ insert_member_at m xs else m ∷ x ∷ xs)) [
          | true ↦ (k.0, All-insert_member m xs h k.1)
          | false ↦ (h, k)
        ]

  pub All-by_index_members : (ms : List MemberRecord) → All P ms → All P (by_index ms)
  unfolding by_index
  All-by_index_members [] h = tt
  All-by_index_members (m ∷ ms) h =
      All-insert_member m (by_index ms) h.0 (All-by_index_members ms h.1)

module _ {K : Type 0} (key : MemberRecord → K) where
  pub All-insert_member_at :
      (P : K → Type 0) (m : MemberRecord) (ms : List MemberRecord)
      → P (key m)
      → All P (map key ms)
      → All P (map key (insert_member_at m ms))
  unfolding insert_member_at
  All-insert_member_at P m [] h k = (h, tt)
  All-insert_member_at P m (x ∷ xs) h k =
      elim (ltb x.index m.index)
        as (λ b. All P (map key (if b then x ∷ insert_member_at m xs else m ∷ x ∷ xs))) [
          | true ↦ (k.0, All-insert_member_at P m xs h k.1)
          | false ↦ (h, k)
        ]

  pub All-by_index :
      (P : K → Type 0) (ms : List MemberRecord) → All P (map key ms) → All P (map key (by_index ms))
  unfolding by_index
  All-by_index P [] h = tt
  All-by_index P (m ∷ ms) h = All-insert_member_at P m (by_index ms) h.0 (All-by_index P ms h.1)

  -- A search by a key that tells the members apart.
  module _ (p : MemberRecord → Bool) (k : K)
      (sound : (m : MemberRecord) → p m ≡ true → key m ≡ k) where
    find-insert_member_at :
        (m : MemberRecord) (ms : List MemberRecord)
        → All (λ j. j ≢ key m) (map key ms)
        → find p (insert_member_at m ms) ≡ find p (m ∷ ms)
    unfolding find insert_member_at
    find-insert_member_at m [] h = refl
    find-insert_member_at m (x ∷ xs) h =
        ground (arith, find-insert_member_at m xs h.1, h.0, sound x, sound m)

    pub find-by_index :
        (ms : List MemberRecord) → Distinct (map key ms) → find p (by_index ms) ≡ find p ms
    unfolding find by_index
    find-by_index [] d = refl
    find-by_index (m ∷ ms) d = ground (
      arith,
      find-insert_member_at m (by_index ms) (All-by_index (λ j. j ≢ key m) ms d.0),
      find-by_index ms d.1,
    )

pub member_by_id-ordered :
    (rec : SessionRecord) (id : String)
    → AreMembers rec.members
    → member_by_id (ordered rec) id ≡ member_by_id rec id
member_by_id-ordered rec id v =
    find-by_index (λ m. m.id) (has_id id) id (λ m e. ground arith) rec.members v.ids_differ

pub member_by_node_id-ordered :
    (rec : SessionRecord) (node : String)
    → AreMembers rec.members
    → member_by_node_id (ordered rec) node ≡ member_by_node_id rec node
member_by_node_id-ordered rec node v =
    find-by_index (λ m. m.node_id) (has_node_id node) node (λ m e. ground arith) rec.members
      v.nodes_differ

free_index_from-any :
    (ms ns : List MemberRecord) (rounds i : ℕ)
    → ((j : ℕ) → is_used ms j ≡ is_used ns j)
    → free_index_from ms rounds i ≡ free_index_from ns rounds i
unfolding free_index_from
free_index_from-any ms ns zero i h = refl
free_index_from-any ms ns (suc n) i h =
    rw (h i, free_index_from-any ms ns n ((i + 1) % 65536) h) refl

pub free_index-ordered : (rec : SessionRecord) → free_index (ordered rec) ≡ free_index rec
unfolding free_index
free_index-ordered rec =
    free_index_from-any (by_index rec.members) rec.members 65536 1
      (λ j. any-by_index (λ m. m.index == j) rec.members)

module _ (rec : SessionRecord) (v : AreMembers rec.members) where
  draw_id-ordered :
      (env : Env) (rounds i : ℕ) → draw_id env (ordered rec) rounds i ≡ draw_id env rec rounds i
  unfolding draw_id
  draw_id-ordered env zero i = refl
  draw_id-ordered env (suc n) i = ground (
    arith,
    draw_id-ordered env n (i + 1),
    member_by_id-ordered rec (append "mbr_" (random_token (env.random i) 15)) v,
  )

  number_id-ordered :
      (base : String) (rounds n : ℕ)
      → number_id (ordered rec) base rounds n ≡ number_id rec base rounds n
  unfolding number_id
  number_id-ordered base zero n = refl
  number_id-ordered base (suc r) n =
      ground
        (arith, number_id-ordered base r (n + 1), member_by_id-ordered rec (append base (itoa n)) v)

  pub new_member_id-ordered : (env : Env) → new_member_id env (ordered rec) ≡ new_member_id env rec
  unfolding new_member_id
  new_member_id-ordered env = ground (
    arith,
    draw_id-ordered env 8 0,
    length-by_index rec.members,
    number_id-ordered (append "mbr_" (random_token (env.random 8) 14)) (length rec.members + 1) 0,
  )
