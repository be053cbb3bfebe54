-- ===== src/Storage/Invariant/Stored.antt =====
-- The invariant of the store in memory: its sessions keep theirs, and the index of join codes and
-- the sessions agree.
use p2p_server.Base.{◌≡◌, ◌≢◌, inl, inr, ap, sym, ◌∙◌, String, Option, some, arith, String_discrete}
use p2p_server.Base.Dict.{lookup, lookup-insert_cases, lookup-insert_self, lookup-insert_ne}
use p2p_server.Storage.{SessionRecord}
use p2p_server.Storage.Invariant.{IsSession}
use p2p_server.Storage.Memory.{MemoryStore, normalize_code, put_session}

abbrev pub session_at : MemoryStore → String → Option SessionRecord
session_at s sid = lookup String_discrete sid s.by_id

abbrev pub code_at : MemoryStore → String → Option String
code_at s code = lookup String_discrete code s.by_code

pub record IsStore (s : MemoryStore) : Type 0 where
  -- A session is under its own ID.
  pub sessions :
      (sid : String) (rec : SessionRecord)
      → session_at s sid ≡ some rec
      → IsSession rec × (rec.id ≡ sid)
  -- A code leads to a session that has it.
  pub leads :
      (code sid : String)
      → code_at s code ≡ some sid
      → (rec : SessionRecord) × (session_at s sid ≡ some rec)
        × (rec.join_code ≢ "")
        × (normalize_code rec.join_code ≡ code)
  -- The code of a session leads to it, and is a real one.
  pub known :
      (sid : String) (rec : SessionRecord)
      → session_at s sid ≡ some rec
      → rec.join_code ≢ ""
      → (code_at s (normalize_code rec.join_code) ≡ some sid) × (normalize_code rec.join_code ≢ "")

-- A write to a session that leaves its ID and, but for its spelling, its code.
pub recode-IsStore :
    (s : MemoryStore) (sid : String) (rec rec' : SessionRecord)
    → session_at s sid ≡ some rec
    → IsSession rec'
    → rec'.id ≡ rec.id
    → (rec.join_code ≢ "" → rec'.join_code ≢ "")
    → (rec'.join_code ≢ "" → rec.join_code ≢ "")
    → normalize_code rec'.join_code ≡ normalize_code rec.join_code
    → IsStore s
    → IsStore (put_session sid rec' s)
recode-IsStore s sid rec rec' at ok_rec hi to from hc v = record {
  sessions = λ j r e. elim (lookup-insert_cases String_discrete sid j rec' r s.by_id e) [
    | inl (p, q) ↦
        (rw q ok_rec, ap (λ (t : SessionRecord). t.id) q ∙ (hi ∙ ((v.sessions sid rec at).1 ∙ p)))
    | inr (_, q) ↦ v.sessions j r q
  ];
  leads = λ code j e. elim (String_discrete sid j) [
    | yes p ↦
        let c : (rec.join_code ≢ "") × (normalize_code rec.join_code ≡ code) =
          lead_of j code (v.leads code j e) p in
        (rec', rw p (lookup-insert_self String_discrete j rec' s.by_id), to c.0, hc ∙ c.1)
    | no n ↦
        let l = v.leads code j e in
        (l.0, lookup-insert_ne String_discrete sid j rec' s.by_id n ∙ l.1, l.2, l.3)
  ];
  known = λ j r e n. elim (lookup-insert_cases String_discrete sid j rec' r s.by_id e) [
    | inl (p, q) ↦ known_of j r p q n
    | inr (_, q) ↦ v.known j r q n
  ];
}
  where
    lead_of :
        (j code : String)
        → ((r : SessionRecord) × (session_at s j ≡ some r)
            × (r.join_code ≢ "")
            × (normalize_code r.join_code ≡ code))
        → sid ≡ j
        → (rec.join_code ≢ "") × (normalize_code rec.join_code ≡ code)
    lead_of j code (r, e, n, c) p =
        let q : r ≡ rec = ground (arith, e, at, p) in (rw (← q) n, rw (← q) c)

    known_of :
        (j : String) (r : SessionRecord)
        → sid ≡ j
        → r ≡ rec'
        → r.join_code ≢ ""
        → (code_at s (normalize_code r.join_code) ≡ some j) × (normalize_code r.join_code ≢ "")
    known_of j r p q n =
        let c : r.join_code ≡ rec'.join_code = ap (λ (t : SessionRecord). t.join_code) q in
        rw (c, hc, ← p) (v.known sid rec at (from (λ z. n (c ∙ z))))

-- A write to a session that leaves its ID and code.
pub put_session-IsStore :
    (s : MemoryStore) (sid : String) (rec rec' : SessionRecord)
    → session_at s sid ≡ some rec
    → IsSession rec'
    → rec'.id ≡ rec.id
    → rec'.join_code ≡ rec.join_code
    → IsStore s
    → IsStore (put_session sid rec' s)
put_session-IsStore s sid rec rec' at ok_rec hi hc v =
    recode-IsStore s sid rec rec' at ok_rec hi (λ n e. n (sym hc ∙ e)) (λ n e. n (hc ∙ e))
      (ap normalize_code hc) v
