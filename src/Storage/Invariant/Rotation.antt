-- ===== src/Storage/Invariant/Rotation.antt =====
-- `RotateToken` and `Delete` and the store's invariant.
use p2p_server.Base.{
  ℕ, ◌≡◌, refl, ◌≢◌, inl, inr, ap, ◌∙◌, String, true, false, List, none, some, ok, arith, same,
  String_discrete, Option-cases, Bool-cases, if◌then◌else◌,
}
use mathlib.Core.Path.{subst}
use p2p_server.Base.Dict.{
  lookup, insert, erase, lookup-insert_cases, lookup-erase_cases, lookup-insert_self,
  lookup-insert_ne, lookup-erase_ne,
}
use p2p_server.Base.Texts.{to_upper, trim_space, remove_char}
use p2p_server.Storage.{Env, SessionRecord}
use p2p_server.Storage.Invariant.{IsSession}
use p2p_server.Storage.Invariant.Stored.{session_at, code_at, IsStore, recode-IsStore}
use p2p_server.Storage.Memory.{MemoryStore, normalize_code, swap_code, rotate_token, delete}

normalize_empty : normalize_code "" ≡ ""
unfolding normalize_code to_upper trim_space remove_char
normalize_empty = refl

-- The code of a session without one normalises to the empty text.
old_real :
    (s : MemoryStore) (sid : String) (rec : SessionRecord)
    → IsStore s
    → session_at s sid ≡ some rec
    → normalize_code rec.join_code ≢ ""
    → rec.join_code ≢ ""
old_real s sid rec v at n e = n (ap normalize_code e ∙ normalize_empty)

module _ (s : MemoryStore) (v : IsStore s) (sid : String) (rec : SessionRecord)
    (at : session_at s sid ≡ some rec) where
  -- A code that leads to another session is not this one's.
  other_code :
      (j : String) (r : SessionRecord)
      → sid ≢ j
      → session_at s j ≡ some r
      → r.join_code ≢ ""
      → rec.join_code ≢ ""
      → normalize_code rec.join_code ≢ normalize_code r.join_code
  other_code j r differ e n m p =
      absurd (ground (arith, (v.known j r e n).0, (v.known sid rec at m).0, p))

  -- A code that leads to this session is its own.
  own_code :
      (code : String)
      → code_at s code ≡ some sid
      → (rec.join_code ≢ "") × (normalize_code rec.join_code ≡ code)
  own_code code e =
      let (r, f, n, c) = v.leads code sid e in
      let q : r ≡ rec = ground (arith, f, at) in (rw (← q) n, rw (← q) c)

  -- The index without this session's code.
  forget : List (String × String)
  forget =
      if same rec.join_code ""
      then s.by_code
      else erase String_discrete (normalize_code rec.join_code) s.by_code

  forget_cases :
      (code j : String)
      → lookup String_discrete code forget ≡ some j
      → (code_at s code ≡ some j) × (sid ≢ j)
  unfolding forget
  forget_cases code j e = elim (Bool-cases (same rec.join_code "")) [
    | inl t ↦
        let f : code_at s code ≡ some j = rw t at e in
        (f, λ p. (own_code code (rw p f)).0 (ground (arith, t)))
    | inr t ↦
        let f =
          lookup-erase_cases String_discrete (normalize_code rec.join_code) code j s.by_code
            (rw t at e) in
        (f.1, λ p. f.0 (own_code code (rw p f.1)).1)
  ]

  forget_other :
      (j : String) (r : SessionRecord)
      → sid ≢ j
      → session_at s j ≡ some r
      → r.join_code ≢ ""
      → lookup String_discrete (normalize_code r.join_code) forget ≡ some j
  unfolding forget
  forget_other j r differ e n = elim (Bool-cases (same rec.join_code "")) [
    | inl t ↦ rw t (v.known j r e n).0
    | inr t ↦ rw t (
        lookup-erase_ne String_discrete (normalize_code rec.join_code) (normalize_code r.join_code)
          s.by_code (other_code j r differ e n (λ p. cc (t, same_of p)))
        ∙ (v.known j r e n).0)
  ]
    where
      same_of : rec.join_code ≡ "" → same rec.join_code "" ≡ true
      same_of p = ground (arith, p)

  deleted-IsStore : IsStore (record { by_id = erase String_discrete sid s.by_id; by_code = forget })
  deleted-IsStore = record {
    sessions = λ j r e. v.sessions j r (lookup-erase_cases String_discrete sid j r s.by_id e).1;
    leads = λ code j e.
        let f = forget_cases code j e in
        let l = v.leads code j f.0 in
        (l.0, lookup-erase_ne String_discrete sid j s.by_id f.1 ∙ l.1, l.2, l.3);
    known = λ j r e n.
        let f = lookup-erase_cases String_discrete sid j r s.by_id e in
        (forget_other j r f.0 f.1 n, (v.known j r f.1 n).1);
  }

  forget_by_key :
      (if same (normalize_code rec.join_code) ""
        then s.by_code
        else erase String_discrete (normalize_code rec.join_code) s.by_code)
      ≡ forget
  unfolding forget
  forget_by_key = elim (String_discrete rec.join_code "") [
    | yes p ↦
        let q : normalize_code rec.join_code ≡ "" = ap normalize_code p ∙ normalize_empty in
        ground (arith, p, q)
    | no n ↦ let k = (v.known sid rec at n).1 in ground (arith, n, k)
  ]

  -- The store with the session under a new code that nobody has.
  rotated-IsStore :
      (rec' : SessionRecord)
      → IsSession rec'
      → rec'.id ≡ rec.id
      → rec'.join_code ≢ ""
      → normalize_code rec'.join_code ≢ ""
      → code_at s (normalize_code rec'.join_code) ≡ none
      → IsStore (record {
        by_id = insert String_discrete sid rec' s.by_id;
        by_code = insert String_discrete (normalize_code rec'.join_code) sid forget;
      })
  rotated-IsStore rec' w hi coded real free = record {
    sessions = λ j r e. elim (lookup-insert_cases String_discrete sid j rec' r s.by_id e) [
      | inl (p, q) ↦
          (rw q w, ap (λ (t : SessionRecord). t.id) q ∙ (hi ∙ ((v.sessions sid rec at).1 ∙ p)))
      | inr (_, q) ↦ v.sessions j r q
    ];
    leads = λ code j e.
        elim (lookup-insert_cases String_discrete (normalize_code rec'.join_code) code sid j forget
          e) [
            | inl (p, q) ↦
                (rec', rw q (lookup-insert_self String_discrete sid rec' s.by_id), coded, p)
            | inr (_, q) ↦
                let f = forget_cases code j q in
                let l = v.leads code j f.0 in
                (l.0, lookup-insert_ne String_discrete sid j rec' s.by_id f.1 ∙ l.1, l.2, l.3)
          ];
    known = λ j r e n. elim (lookup-insert_cases String_discrete sid j rec' r s.by_id e) [
      | inl (p, q) ↦
          let c : r.join_code ≡ rec'.join_code = ap (λ (t : SessionRecord). t.join_code) q in
          rw (c, ← p)
            (lookup-insert_self String_discrete (normalize_code rec'.join_code) sid forget, real)
      | inr (m, q) ↦ (
        lookup-insert_ne String_discrete (normalize_code rec'.join_code)
              (normalize_code r.join_code) sid forget (fresh j r q n)
            ∙ forget_other j r m q n,
        (v.known j r q n).1,
      )
    ];
  }
    where
      fresh :
          (j : String) (r : SessionRecord)
          → session_at s j ≡ some r
          → r.join_code ≢ ""
          → normalize_code rec'.join_code ≢ normalize_code r.join_code
      fresh j r e n p = absurd (ground (arith, free, (v.known j r e n).0, p))

module _ (s s' : MemoryStore) (v : IsStore s) (env : Env) (sid : String) where
  pub delete-IsStore : delete env sid s ≡ ok s' → IsStore s'
  unfolding delete forget
  delete-IsStore h = elim (Option-cases (session_at s sid)) [
    | inl e ↦ absurd (ground (arith, e, h))
    | inr (rec, e) ↦ subst IsStore (ground (arith, e, h)) (deleted-IsStore s v sid rec e)
  ]

  -- A new code that is not all blanks and dashes.
  pub rotate_token-IsStore :
      (hash code : String) (now : ℕ)
      → normalize_code code ≢ ""
      → rotate_token env sid hash code now s ≡ ok s'
      → IsStore s'
  unfolding rotate_token swap_code
  rotate_token-IsStore hash code now real h = elim (Option-cases (session_at s sid)) [
    | inl e ↦ absurd (ground (arith, e, h))
    | inr (rec, e) ↦
        let w = (v.sessions sid rec e).0 in
        let rec' : SessionRecord = record rec {
          join_code = code;
          token_hash = hash;
          revoked = false;
        } in
        let coded : code ≢ "" = λ p. real (ap normalize_code p ∙ normalize_empty) in
        elim (String_discrete (normalize_code code) (normalize_code rec.join_code)) [
          | yes p ↦ subst IsStore (ground (arith, e, h, p)) (
              recode-IsStore s sid rec rec' e (record { members = w.members; joins = w.joins }) refl
                (λ _. coded) (λ _. old_real s sid rec v e (λ q. real (p ∙ q))) p v)
          | no n ↦ elim (Option-cases (code_at s (normalize_code code))) [
            | inr (j, f) ↦ absurd (ground (arith, e, f, h, n, real))
            | inl f ↦
                subst IsStore (ground (arith, e, f, h, n, real, forget_by_key s v sid rec e)) (
                  rotated-IsStore s v sid rec e rec'
                    (record { members = w.members; joins = w.joins }) refl coded real f)
          ]
        ]
  ]
