-- ===== src/Storage/Invariant/Codes.antt =====
-- The store's invariant under `Create`, and under writes to a session with a code.
use p2p_server.Base.{
  ◌≡◌, ◌≢◌, ◌⊎◌, inl, inr, ap, ◌∙◌, String, List, none, some, ok, arith, String_discrete,
  Option-cases,
}
use mathlib.Core.Path.{subst}
use p2p_server.Base.Dict.{lookup, insert, lookup-insert_cases, lookup-insert_self, lookup-insert_ne}
use p2p_server.Storage.{Env, SessionRecord}
use p2p_server.Storage.Invariant.{IsSession}
use p2p_server.Storage.Invariant.Stored.{session_at, code_at, IsStore}
use p2p_server.Storage.Memory.{
  MemoryStore, normalize_code, or_now, register_code, create, new_memory,
}

-- The index with one code more.
abbrev with_code : String → String → List (String × String) → List (String × String)
with_code code sid codes = insert String_discrete code sid codes

-- A code of a session is none, or one that is not all blanks and dashes.
abbrev pub HasRealCode : String → Type 0
HasRealCode code = (code ≡ "") ⊎ ((code ≢ "") × (normalize_code code ≢ ""))

pub new_memory-IsStore : IsStore new_memory
unfolding new_memory lookup
new_memory-IsStore = record {
  sessions = λ sid rec e. cc;
  leads = λ code sid e. cc;
  known = λ sid rec e n. cc;
}

module _ (s s' : MemoryStore) (v : IsStore s) (env : Env) where
  -- Adding a session without a code.
  add_plain :
      (rec : SessionRecord)
      → session_at s rec.id ≡ none
      → IsSession rec
      → rec.join_code ≡ ""
      → IsStore (record s { by_id = insert String_discrete rec.id rec s.by_id })
  add_plain rec new w plain = record {
    sessions = λ j r e. elim (lookup-insert_cases String_discrete rec.id j rec r s.by_id e) [
      | inl (p, q) ↦ (rw q w, ap (λ (t : SessionRecord). t.id) q ∙ p)
      | inr (_, q) ↦ v.sessions j r q
    ];
    leads = λ code j e.
        let l = v.leads code j e in
        (
          l.0,
          lookup-insert_ne String_discrete rec.id j rec s.by_id (differs j l.0 l.1) ∙ l.1,
          l.2,
          l.3,
        );
    known = λ j r e n. elim (lookup-insert_cases String_discrete rec.id j rec r s.by_id e) [
      | inl (p, q) ↦ absurd (n (ap (λ (t : SessionRecord). t.join_code) q ∙ plain))
      | inr (_, q) ↦ v.known j r q n
    ];
  }
    where
      differs : (j : String) (r : SessionRecord) → session_at s j ≡ some r → rec.id ≢ j
      differs j r e p = absurd (ground (arith, e, new, p))

  -- Adding a session with a code that nobody has.
  add_coded :
      (rec : SessionRecord)
      → session_at s rec.id ≡ none
      → IsSession rec
      → normalize_code rec.join_code ≢ ""
      → rec.join_code ≢ ""
      → code_at s (normalize_code rec.join_code) ≡ none
      → IsStore (record {
        by_id = insert String_discrete rec.id rec s.by_id;
        by_code = with_code (normalize_code rec.join_code) rec.id s.by_code;
      })
  add_coded rec new w real coded free = record {
    sessions = λ j r e. elim (lookup-insert_cases String_discrete rec.id j rec r s.by_id e) [
      | inl (p, q) ↦ (rw q w, ap (λ (t : SessionRecord). t.id) q ∙ p)
      | inr (_, q) ↦ v.sessions j r q
    ];
    leads = λ code j e.
        elim (lookup-insert_cases String_discrete (normalize_code rec.join_code) code rec.id j
          s.by_code e) [
            | inl (p, q) ↦
                (rec, rw q (lookup-insert_self String_discrete rec.id rec s.by_id), coded, p)
            | inr (_, q) ↦
                let l = v.leads code j q in
                (
                  l.0,
                  lookup-insert_ne String_discrete rec.id j rec s.by_id (differs j l.0 l.1) ∙ l.1,
                  l.2,
                  l.3,
                )
          ];
    known = λ j r e n. elim (lookup-insert_cases String_discrete rec.id j rec r s.by_id e) [
      | inl (p, q) ↦
          let c : r.join_code ≡ rec.join_code = ap (λ (t : SessionRecord). t.join_code) q in
          rw (c, ← p)
            (
              lookup-insert_self String_discrete (normalize_code rec.join_code) rec.id s.by_code,
              real,
            )
      | inr (_, q) ↦
          let k = v.known j r q n in
          (
            lookup-insert_ne String_discrete (normalize_code rec.join_code)
                  (normalize_code r.join_code) rec.id s.by_code (apart j r k.0)
                ∙ k.0,
            k.1,
          )
    ];
  }
    where
      differs : (j : String) (r : SessionRecord) → session_at s j ≡ some r → rec.id ≢ j
      differs j r e p = absurd (ground (arith, e, new, p))

      apart :
          (j : String) (r : SessionRecord)
          → code_at s (normalize_code r.join_code) ≡ some j
          → normalize_code rec.join_code ≢ normalize_code r.join_code
      apart j r e p = absurd (ground (arith, e, free, p))

  -- A new session, whose members fit and whose code is none or a real one.
  pub create-IsStore :
      (rec rec' : SessionRecord)
      → IsSession rec
      → HasRealCode rec.join_code
      → create env rec s ≡ ok (rec', s')
      → IsStore s'
  unfolding create register_code
  create-IsStore rec rec' w (inl plain) h = elim (Option-cases (session_at s rec.id)) [
    | inr (r, e) ↦ absurd (ground (arith, e, h))
    | inl e ↦ subst IsStore (ground (arith, e, h, plain)) (
        add_plain (record rec { created_at = or_now env rec.created_at }) e
          (record { members = w.members; joins = w.joins }) plain)
  ]
  create-IsStore rec rec' w (inr (coded, real)) h = elim (Option-cases (session_at s rec.id)) [
    | inr (r, e) ↦ absurd (ground (arith, e, h))
    | inl e ↦ elim (Option-cases (code_at s (normalize_code rec.join_code))) [
      | inr (j, f) ↦ absurd (ground (arith, e, f, h, coded))
      | inl f ↦ subst IsStore (ground (arith, e, f, h, coded)) (
          add_coded (record rec { created_at = or_now env rec.created_at }) e
            (record { members = w.members; joins = w.joins }) real coded f)
    ]
  ]
