-- ===== src/Storage/Ids.antt =====
-- internal/storage/memory.go: random identifiers.
pub mod Fresh
use p2p_server.Base.{ℕ, zero, suc, ◌+◌, ◌%◌, String, Option, none, some, length}
use p2p_server.Base.Search.{find}
use p2p_server.Base.Texts.{append, char_at, itoa}
use p2p_server.Storage.{Env, SessionRecord, member_by_id}

abbrev id_alphabet : String
id_alphabet = "0123456789ABCDEFGHJKMNPQRSTVWXYZ"

random_chars : (ℕ → ℕ) → ℕ → ℕ → String
random_chars bytes zero j = ""
random_chars bytes (suc n) j =
    String.◌∷◌ (char_at id_alphabet (bytes j % 32)) (random_chars bytes n (suc j))

-- `randomToken(n)`, from the bytes that it read.
unfoldable pub random_token : (ℕ → ℕ) → ℕ → String
unfolding random_chars
random_token bytes n = random_chars bytes n 0

-- The first loop of `newMemberID`: `rounds` draws are left, the next one is number `i`.
unfoldable pub draw_id : Env → SessionRecord → ℕ → ℕ → Option String
draw_id env rec zero i = none
draw_id env rec (suc rounds) i =
    let id = append "mbr_" (random_token (env.random i) 15) in
    let again = draw_id env rec rounds (i + 1) in
    elim (member_by_id rec id) [ none ↦ some id | some _ ↦ again ]

-- Its second loop, with the rounds that are left. It has no bound in the code.
unfoldable pub number_id : SessionRecord → String → ℕ → ℕ → Option String
number_id rec base zero n = none
number_id rec base (suc rounds) n =
    let id = append base (itoa n) in
    let again = number_id rec base rounds (n + 1) in
    elim (member_by_id rec id) [ none ↦ some id | some _ ↦ again ]

-- The second loop gets one round more than there are members.
unfoldable pub new_member_id : Env → SessionRecord → String
new_member_id env rec = elim (draw_id env rec 8 0) [
  | some id ↦ id
  | none ↦
      let base = append "mbr_" (random_token (env.random 8) 14) in
      elim (number_id rec base (length rec.members + 1) 0) [ some id ↦ id | none ↦ base ]
]
