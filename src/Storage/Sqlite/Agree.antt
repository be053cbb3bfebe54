-- ===== src/Storage/Sqlite/Agree.antt =====
-- When the tables hold what the store in memory holds, and the writes that keep it so.
use p2p_server.Base.{
  ◌≡◌, refl, ◌≢◌, String, false, List, [], map, Option, none, some, Result, ok, err,
  String_discrete, All,
}
use mathlib.Core.Path.{subst}
use p2p_server.Base.Dict.{lookup}
use p2p_server.Base.Distinct.{Distinct}
use p2p_server.Base.Keys.{keys}
use p2p_server.Storage.{Env, StoreError, not_found, SessionRecord}
use p2p_server.Storage.Invariant.Stored.{session_at}
use p2p_server.Storage.Memory.{MemoryStore}
use p2p_server.Storage.Sqlite.{SessionRow, MemberRow, Tables, Json, IsJson}
use p2p_server.Storage.Sqlite.Columns.{
  member_row, IsHeld, IsDated, scan_all-map, order_by_index-map, scan_session-session_row,
}
use p2p_server.Storage.Sqlite.Order.{by_index, ordered, All-by_index_members}
use p2p_server.Storage.Sqlite.Rows.{rows_of, load_members, load_session, scan_session, session_row}

abbrev pub row_at : Tables → String → Option SessionRow
row_at t sid = lookup String_discrete sid t.sessions

-- The call gets through to the database and back.
pub record IsQuiet (env : Env) : Type 0 where
  pub live : env.ctx_err ≡ none
  pub starts : env.db_refuses ≡ false
  pub commits : env.commit_fails ≡ false

-- Two results with the same error, or with values that are related.
abbrev pub Both {ℓ} :
    {A B : Type ℓ} → (A → B → Type 0) → Result StoreError A → Result StoreError B → Type 0
Both R (ok a) (ok b) = R a b
Both R (err e) (err f) = e ≡ f
Both R _ _ = ⊥

module _ {ℓ} {A B : Type ℓ} (R : A → B → Type 0) (r : Result StoreError A)
    (q : Result StoreError B) where
  pub Both-ok : (a : A) (b : B) → r ≡ ok a → q ≡ ok b → R a b → Both R r q
  Both-ok a b e f h = rw (e, f) h

  pub Both-err : (x : StoreError) → r ≡ err x → q ≡ err x → Both R r q
  Both-err x e f = rw (e, f) refl

module _ (c : Json) (v : IsJson c) where
  -- The rows for one session, and the session in memory.
  abbrev pub Holds : String → Option SessionRow → List MemberRow → Option SessionRecord → Type 0
  Holds sid row rows none = (row ≡ none) × (rows ≡ [])
  Holds sid row rows (some rec) =
      (row ≡ some (session_row rec))
      × (rows ≡ map (member_row c v sid) rec.members)
      × IsDated rec
      × All (IsHeld sid) rec.members

  -- For every ID the tables have the row and the member rows of the session in memory, if any, and
  -- no others; the rows hold its times whole.
  pub record Agrees (t : Tables) (s : MemoryStore) : Type 0 where
    pub holds : (sid : String) → Holds sid (row_at t sid) (rows_of sid t) (session_at s sid)
    pub once : Distinct (keys t.sessions)

  module _ (t : Tables) (s : MemoryStore) (g : Agrees t s) (sid : String) where
    pub Holds-some :
        (rec : SessionRecord)
        → session_at s sid ≡ some rec
        → Holds sid (row_at t sid) (rows_of sid t) (some rec)
    Holds-some rec e = subst (Holds sid (row_at t sid) (rows_of sid t)) e (g.holds sid)

    pub Holds-none : session_at s sid ≡ none → Holds sid (row_at t sid) (rows_of sid t) none
    Holds-none e = subst (Holds sid (row_at t sid) (rows_of sid t)) e (g.holds sid)

    pub load_session-none : session_at s sid ≡ none → load_session c sid t ≡ err not_found
    unfolding load_session
    load_session-none e = rw (Holds-none e).0 refl

    -- A session that is loaded is the one in memory, with its members in the order of their
    -- indices.
    pub load_session-some :
        (rec : SessionRecord)
        → session_at s sid ≡ some rec
        → rec.id ≡ sid
        → load_session c sid t ≡ ok (ordered rec)
    unfolding load_session load_members
    load_session-some rec e own =
        let (row, rows, dated, held) = Holds-some rec e in
        let read : scan_session sid (session_row rec) ≡ record rec { members = [] } =
          subst (λ k. scan_session k (session_row rec) ≡ record rec { members = [] }) own
            (scan_session-session_row rec dated) in
        rw
          (
            row,
            rows,
            order_by_index-map c v sid rec.members,
            scan_all-map c v sid (by_index rec.members)
                (All-by_index_members (IsHeld sid) rec.members held),
            read,
          )
          refl

  -- A write to one session.
  pub write-Agrees :
      (t t' : Tables) (s s' : MemoryStore) (sid : String)
      → Agrees t s
      → ((j : String)
          → sid ≢ j
          → (row_at t' j ≡ row_at t j)
            × (rows_of j t' ≡ rows_of j t)
            × (session_at s' j ≡ session_at s j))
      → Holds sid (row_at t' sid) (rows_of sid t') (session_at s' sid)
      → Distinct (keys t'.sessions)
      → Agrees t' s'
  write-Agrees t t' s s' sid g others this d = record {
    holds = λ j. elim (String_discrete sid j) [
      | yes e ↦ subst (λ k. Holds k (row_at t' k) (rows_of k t') (session_at s' k)) e this
      | no n ↦ let (a, b, m) = others j n in rw (a, b, m) (g.holds j)
    ];
    once = d;
  }
