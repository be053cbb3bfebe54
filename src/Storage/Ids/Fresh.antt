-- ===== src/Storage/Ids/Fresh.antt =====
-- The IDs that `newMemberID` makes for new members.
use p2p_server.Base.{
  ℕ, zero, suc, ◌+◌, ◌≤◌, ◌<◌, ◌≡◌, ◌⊎◌, inl, inr, String, Bool, true, List, [], ◌∷◌, none, some,
  Option, arith, length, ℕ_discrete, Option-cases,
}
use p2p_server.Base.Search.{find, any}
use p2p_server.Base.Pigeonhole.{pigeonhole}
use p2p_server.Base.Texts.{append, itoa}
use p2p_server.Base.Texts.Decimal.{itoa_injective, append_injective}
use p2p_server.Storage.{Env, MemberRecord, SessionRecord, has_id, member_by_id}
use p2p_server.Storage.Ids.{random_token, draw_id, number_id, new_member_id}

any_of_find :
    (p : MemberRecord → Bool) (ms : List MemberRecord) (m : MemberRecord)
    → find p ms ≡ some m
    → any p ms ≡ true
unfolding find any
any_of_find p [] m e = cc
any_of_find p (x ∷ ms) m e = ground (arith, any_of_find p ms m)

draw_id-free :
    (env : Env) (rec : SessionRecord) (rounds i : ℕ) (id : String)
    → draw_id env rec rounds i ≡ some id
    → member_by_id rec id ≡ none
unfolding draw_id
draw_id-free env rec zero i id e = cc
draw_id-free env rec (suc n) i id e = ground (arith, draw_id-free env rec n (i + 1) id)

module _ (rec : SessionRecord) (base : String) where
  AllTaken : ℕ → ℕ → Type 0
  AllTaken n rounds =
      (j : ℕ) → n ≤ j → j < n + rounds → any (has_id (append base (itoa j))) rec.members ≡ true

  abbrev IsFree : Option String → Type 0
  IsFree out = (id : String) × (out ≡ some id) × (member_by_id rec id ≡ none)

  number_id-cases : (rounds n : ℕ) → IsFree (number_id rec base rounds n) ⊎ AllTaken n rounds
  unfolding number_id AllTaken
  number_id-cases zero n = inr (λ j lo hi. absurd (omega arith))
  number_id-cases (suc r) n = elim (Option-cases (member_by_id rec (append base (itoa n)))) [
    | inl e ↦ inl (append base (itoa n), ground (arith, e), e)
    | inr (m, e) ↦ elim (number_id-cases r (n + 1)) [
      | inl (id, found, free) ↦ inl (id, ground (arith, e, found), free)
      | inr taken ↦ inr λ j lo hi. elim (ℕ_discrete n j) [
        | yes same_j ↦ rw (← same_j) (any_of_find _ rec.members m e)
        | no other ↦ taken j (omega arith) (omega arith)
      ]
    ]
  ]

  named_once :
      (i j : ℕ) (m : MemberRecord)
      → has_id (append base (itoa i)) m ≡ true
      → has_id (append base (itoa j)) m ≡ true
      → i ≡ j
  named_once i j m e h = itoa_injective i j (append_injective base (itoa i) (itoa j) (ground arith))

  -- The unbounded loop of `newMemberID` ends with an ID that no member has, within one round more
  -- than the session has members.
  pub number_id-IsFree :
      (id : String) × (number_id rec base (length rec.members + 1) 0 ≡ some id)
      × (member_by_id rec id ≡ none)
  unfolding AllTaken
  number_id-IsFree = elim (number_id-cases (length rec.members + 1) 0) [
    | inl free ↦ free
    | inr taken ↦ absurd (
        omega (
          arith,
          pigeonhole (λ j. has_id (append base (itoa j))) named_once rec.members
              (length rec.members + 1) 0 taken,
        ))
  ]

-- Whatever the random bytes are, the ID made for a new member is no member's of the session.
pub new_member_id-fresh :
    (env : Env) (rec : SessionRecord) → member_by_id rec (new_member_id env rec) ≡ none
unfolding new_member_id
new_member_id-fresh env rec = elim (Option-cases (draw_id env rec 8 0)) [
  | inl e ↦
      let (id, found, free) =
        number_id-IsFree rec (append "mbr_" (random_token (env.random 8) 14)) in
      rw (e, found, new_member_id) free
  | inr (id, e) ↦ rw (e, new_member_id) (draw_id-free env rec 8 0 id e)
]
