-- ===== src/Storage/Listing.antt =====
-- internal/storage/memory.go: `List`.
pub mod Whole
use p2p_server.Base.{
  ℕ, ◌+◌, String, Bool, not, ◌&&◌, ◌||◌, List, [], ◌∷◌, ltb, leb, ◌==◌, if◌then◌else◌,
}
use p2p_server.Storage.{SessionRecord, ListFilter}

-- The two `continue` tests of the loop.
abbrev pub is_skipped : ListFilter → SessionRecord → Bool
is_skipped f rec =
    (f.closed_only && not rec.closed)
    || (not (f.expired_before == 0)
        && not (not (rec.expires_at == 0) && ltb rec.expires_at f.expired_before))

-- The loop over the map, with `n` records in `out` so far.
pub collect : ListFilter → ℕ → List (String × SessionRecord) → List SessionRecord
collect f n [] = []
collect f n ((_, rec) ∷ m) =
    let skip = collect f n m in
    let more = rec ∷ collect f (n + 1) m in
    if is_skipped f rec
    then skip
    else if ltb 0 f.limit && leb f.limit (n + 1)
    then rec ∷ []
    else more

pub insert_by_age : SessionRecord → List SessionRecord → List SessionRecord
insert_by_age r [] = r ∷ []
insert_by_age r (x ∷ xs) =
    if ltb x.created_at r.created_at then x ∷ insert_by_age r xs else r ∷ x ∷ xs

-- `sort.Slice` by `CreatedAt`.
pub sort_by_age : List SessionRecord → List SessionRecord
sort_by_age [] = []
sort_by_age (x ∷ xs) = insert_by_age x (sort_by_age xs)

unfoldable pub list_sessions : ListFilter → List (String × SessionRecord) → List SessionRecord
unfolding collect insert_by_age sort_by_age
list_sessions f m = sort_by_age (collect f 0 m)
