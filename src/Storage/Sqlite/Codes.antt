-- ===== src/Storage/Sqlite/Codes.antt =====
-- The search for a join code in the tables and the index of codes in memory.
use p2p_server.Base.{
  ◌≡◌, refl, sym, ◌∙◌, ap, ◌≢◌, inl, inr, String, Bool, false, not, ◌&&◌, none, some, arith, same,
  Bool-cases, String_discrete, Option-cases,
}
use mathlib.Core.Path.{subst}
use p2p_server.Base.Keys.{lookup-find, any-lookup}
use p2p_server.Base.Search.{find, find_holds, any}
use p2p_server.Base.Table.{any-find}
use p2p_server.Base.Texts.{to_upper, remove_char, trim_space}
use p2p_server.Storage.Invariant.Stored.{session_at, code_at, IsStore}
use p2p_server.Storage.Memory.{MemoryStore, normalize_code}
use p2p_server.Storage.Sqlite.{SessionRow, Tables, Json, IsJson}
use p2p_server.Storage.Sqlite.Agree.{Agrees, row_at, Holds-some, Holds-none}
use p2p_server.Storage.Sqlite.Calls.{is_held}
use p2p_server.Storage.Sqlite.Entry.{has_norm}
use p2p_server.Storage.Sqlite.Rows.{session_row}

pub no_code : normalize_code "" ≡ ""
unfolding normalize_code remove_char to_upper trim_space
no_code = refl

module _ (c : Json) (v : IsJson c) (t : Tables) (s : MemoryStore) (g : Agrees c v t s)
    (w : IsStore s) (norm : String) (real : norm ≢ "") where
  -- A row with the code belongs to the session to which the code leads.
  pub row-code_at :
      (sid : String) (row : SessionRow)
      → row_at t sid ≡ some row
      → row.join_code_norm ≡ norm
      → code_at s norm ≡ some sid
  unfolding session_row
  row-code_at sid row found holds = elim (Option-cases (session_at s sid)) [
    | inl f ↦ absurd (ground (arith, found, (Holds-none c v t s g sid f).0))
    | inr (rec, f) ↦
        let its : row ≡ session_row rec =
          ground (arith, found, (Holds-some c v t s g sid rec f).0) in
        let spelled : normalize_code rec.join_code ≡ norm = ground (arith, its, holds) in
        let coded : rec.join_code ≢ "" =
          λ z. real (sym spelled ∙ (ap normalize_code z ∙ no_code)) in
        subst (λ k. code_at s k ≡ some sid) spelled (w.known sid rec f coded).0
  ]

  pub find_norm-some :
      (sid : String) (row : SessionRow)
      → find (has_norm norm) t.sessions ≡ some (sid, row)
      → code_at s norm ≡ some sid
  find_norm-some sid row e =
      let holds = find_holds (has_norm norm) t.sessions (sid, row) e in
      row-code_at sid row (lookup-find String_discrete (has_norm norm) sid row t.sessions g.once e)
        (ground (arith, holds))

  -- A code that leads to a session is in its row.
  pub find_norm-code_at :
      (sid : String)
      → code_at s norm ≡ some sid
      → (row : SessionRow) × (find (has_norm norm) t.sessions ≡ some (sid, row))
  unfolding session_row
  find_norm-code_at sid e =
      let (rec, f, _, spelled) = w.leads norm sid e in
      let there =
        any-lookup String_discrete (has_norm norm) sid (session_row rec) t.sessions
          (Holds-some c v t s g sid rec f).0 (ground (arith, spelled)) in
      let ((k, row), h) = any-find (has_norm norm) t.sessions there in
      let q : sid ≡ k = ground (arith, e, find_norm-some k row h) in
      (row, subst (λ j. find (has_norm norm) t.sessions ≡ some (j, row)) (sym q) h)

  pub find_norm-none : code_at s norm ≡ none → find (has_norm norm) t.sessions ≡ none
  find_norm-none e = elim (Option-cases (find (has_norm norm) t.sessions)) [
    | inl h ↦ h
    | inr ((k, row), h) ↦ absurd (ground (arith, e, find_norm-some k row h))
  ]

  -- No row of another session has a code that is free or leads to the session.
  pub is_held-false :
      (sid : String)
      → ((k : String) → code_at s norm ≡ some k → k ≡ sid)
      → is_held sid norm t ≡ false
  is_held-false sid h = elim (Bool-cases (any other t.sessions)) [
    | inr e ↦ ground (arith, e)
    | inl e ↦
        let ((k, row), f) = any-find other t.sessions e in
        let holds = find_holds other t.sessions (k, row) f in
        let found = lookup-find String_discrete other k row t.sessions g.once f in
        let own = h k (row-code_at k row found (ground (arith, holds))) in
        absurd (ground (arith, own, holds))
  ]
    where
      other : String × SessionRow → Bool
      other p = not (same p.0 sid) && has_norm norm p
