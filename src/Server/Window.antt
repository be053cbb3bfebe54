-- ===== src/Server/Window.antt =====
-- How many requests from one address a bucket lets through in one window.
use p2p_server.Base.{
  ℕ, suc, ◌+◌, ◌-◌, ◌≤◌, ◌≡◌, ◌≢◌, refl, sym, ◌∙◌, inl, inr, ap, min, true, false, String, List, [],
  ◌∷◌, arith, ltb, leb, ◌==◌, same, if◌then◌else◌, All, String_discrete, Bool-cases,
}
use mathlib.Core.Path.{subst}
use p2p_server.Base.Dict.{lookup-insert}
use p2p_server.Server.{Bucket, count_of, renewed, allow}

-- The requests from `key` among those of a run that are let through, and the bucket after it.
abbrev pub let_through : String → List (ℕ × String) → Bucket → ℕ
let_through key [] b = 0
let_through key ((now, k) ∷ calls) b =
    let (passed, c) = allow now k b in
    let rest = let_through key calls c in
    if same k key then (if passed then suc rest else rest) else rest

-- The requests from `key`.
abbrev pub requests : String → List (ℕ × String) → ℕ
requests key [] = 0
requests key ((now, k) ∷ calls) =
    let rest = requests key calls in if same k key then suc rest else rest

count_of-allow :
    (now : ℕ) (k key : String) (b : Bucket)
    → b.limit ≢ 0
    → now ≤ b.reset
    → (count_of key (allow now k b).1
        ≡ (if same k key then suc (count_of key b) else count_of key b))
      × ((allow now k b).0 ≡ leb (count_of k b + 1) b.limit)
      × ((allow now k b).1.limit ≡ b.limit)
      × ((allow now k b).1.reset ≡ b.reset)
unfolding allow renewed
count_of-allow now k key b on l =
    let open_window : ltb b.reset now ≡ false = ground (arith, l) in
    let bounded : (b.limit == 0) ≡ false = ground (arith, on) in
    let write = lookup-insert String_discrete k key (count_of k b + 1) b.counts in
    rw (allow, open_window, bounded) (ground (arith, write), refl, refl, refl)

own_key : (k key : String) → same k key ≡ true → k ≡ key
own_key k key e = ground arith

-- In one window of a bucket with a limit, the requests from an address that are let through are
-- as many as it makes, but no more than the limit less those that it has made in the window before.
pub let_through-min :
    (key : String) (calls : List (ℕ × String)) (b : Bucket)
    → b.limit ≢ 0
    → All (λ call. call.0 ≤ b.reset) calls
    → let_through key calls b ≡ min (requests key calls) (b.limit - count_of key b)
let_through-min key [] b on l = omega arith
let_through-min key ((now, k) ∷ calls) b on l =
    let (cnt, pass, lim, res) = count_of-allow now k key b on l.0 in
    let c = (allow now k b).1 in
    let later =
      let_through-min key calls c (λ e. on (sym lim ∙ e))
        (subst (λ r. All (λ (call : ℕ × String). call.0 ≤ r) calls) (sym res) l.1) in
    elim (Bool-cases (same k key)) [
      | inl e ↦
          let own : count_of k b ≡ count_of key b = ap (λ z. count_of z b) (own_key k key e) in
          ground (arith, e, own, cnt, pass, lim, later)
      | inr e ↦ ground (arith, e, cnt, lim, later)
    ]
