-- ===== src/Storage/Sqlite/Answers.antt =====
-- `Join`, `Get` and `GetByJoinCode` on both stores: the answers agree up to the order of members,
-- by index in the tables.
use p2p_server.Base.{
  ℕ, ◌≡◌, refl, ◌∙◌, ap, ◌≢◌, inl, inr, String, Result, ok, err, arith, same, Option-cases,
  Bool-cases,
}
use p2p_server.Storage.{
  Env, StoreError, not_found, closed, expired, SessionRecord, JoinRequest, JoinOutcome, is_expired,
  member_by_node_id,
}
use p2p_server.Storage.Admission.{rejoin, admit, join_session}
use p2p_server.Storage.Invariant.Stored.{session_at, code_at, IsStore}
use p2p_server.Storage.Memory
use p2p_server.Storage.Memory.{MemoryStore, or_now, put_session, normalize_code}
use p2p_server.Storage.Sqlite.{Tables, Json, IsJson}
use p2p_server.Storage.Sqlite.Admit.{join_new-Both}
use p2p_server.Storage.Sqlite.Agree.{
  IsQuiet, Both, Both-ok, Both-err, Agrees, load_session-none, load_session-some,
}
use p2p_server.Storage.Sqlite.Calls.{get, get_by_join_code}
use p2p_server.Storage.Sqlite.Codes.{find_norm-code_at, find_norm-none}
use p2p_server.Storage.Sqlite.Columns.{IsTimed}
use p2p_server.Storage.Sqlite.Entry.{join, join_loaded, join_new}
use p2p_server.Storage.Sqlite.Order.{ordered, member_by_node_id-ordered}
use p2p_server.Storage.Sqlite.Rejoin.{IsSame, join_again-Agrees}

-- Two calls that go on to others, whose results are related.
Both-lift :
    {A B C : Type 0} (R : A → B → Type 0) (S : A → C → Type 0) (f : B → C) (r : Result StoreError A)
    (q : Result StoreError B) (r' : Result StoreError A) (q' : Result StoreError C)
    → ((a : A) → r ≡ ok a → r' ≡ ok a)
    → ((x : StoreError) → r ≡ err x → r' ≡ err x)
    → ((b : B) → q ≡ ok b → q' ≡ ok (f b))
    → ((x : StoreError) → q ≡ err x → q' ≡ err x)
    → ((a : A) (b : B) → R a b → S a (f b))
    → Both R r q
    → Both S r' q'
Both-lift R S f (ok a) (ok b) r' q' h1 h2 h3 h4 k m =
    Both-ok S r' q' a (f b) (h1 a refl) (h3 b refl) (k a b m)
Both-lift R S f (err x) (err y) r' q' h1 h2 h3 h4 k m =
    Both-err S r' q' y (h2 x refl ∙ ap err m) (h4 y refl)
Both-lift R S f (ok a) (err y) r' q' h1 h2 h3 h4 k m = elim m [ ]
Both-lift R S f (err x) (ok b) r' q' h1 h2 h3 h4 k m = elim m [ ]

is_expired-ordered :
    (rec : SessionRecord) (now : ℕ) → is_expired (ordered rec) now ≡ is_expired rec now
unfolding is_expired
is_expired-ordered rec now = refl

module _ (c : Json) (v : IsJson c) (t : Tables) (s : MemoryStore) (g : Agrees c v t s)
    (w : IsStore s) (env : Env) (q : IsQuiet env) where
  -- `Get`: the same error, or the same session with its members in the order of their indices.
  pub get-Both :
      (sid : String) → Both (λ a b. a ≡ ordered b) (get c env sid t) (Memory.get env sid s)
  unfolding get Memory.get
  get-Both sid =
      let related = λ (a b : SessionRecord). a ≡ ordered b in
      elim (Option-cases (session_at s sid)) [
        | inl e ↦
            Both-err related (get c env sid t) (Memory.get env sid s) not_found
              (ground (arith, q.live, q.starts, load_session-none c v t s g sid e))
              (ground (arith, q.live, e))
        | inr (rec, e) ↦
            Both-ok related (get c env sid t) (Memory.get env sid s) (ordered rec) rec
              (ground (
                arith,
                q.live,
                q.starts,
                load_session-some c v t s g sid rec e (w.sessions sid rec e).1,
              ))
              (ground (arith, q.live, e)) refl
      ]

  -- `GetByJoinCode`, in a call that gets through to the database, over a JSON encoding that keeps its
  -- law, on stores in agreement of which the one in memory keeps its invariant: the same error, or the same session with its members in
  -- the order of their indices in SQLite.
  pub get_by_join_code-Both :
      (code : String)
      → Both
          (λ a b. a ≡ ordered b)
          (get_by_join_code c env code t)
          (Memory.get_by_join_code env code s)
  unfolding get_by_join_code Memory.get_by_join_code
  get_by_join_code-Both code =
      let related = λ (a b : SessionRecord). a ≡ ordered b in
      let norm = normalize_code code in
      let fails =
        Both-err related (get_by_join_code c env code t) (Memory.get_by_join_code env code s) in
      elim (Bool-cases (same norm "")) [
        | inl z ↦ elim (Option-cases (code_at s norm)) [
          | inl e ↦ fails not_found (ground (arith, q.live, z)) (ground (arith, q.live, e))
          | inr (sid, e) ↦
              let (rec, f, coded, spelled) = w.leads norm sid e in
              absurd (ground (arith, z, spelled, (w.known sid rec f coded).1))
        ]
        | inr z ↦
            let real : norm ≢ "" = ground (arith, z) in
            elim (Option-cases (code_at s norm)) [
              | inl e ↦
                  fails not_found
                    (ground (arith, q.live, q.starts, z, find_norm-none c v t s g w norm real e))
                    (ground (arith, q.live, e))
              | inr (sid, e) ↦
                  let (rec, f, _, _) = w.leads norm sid e in
                  let h = find_norm-code_at c v t s g w norm real sid e in
                  Both-ok related (get_by_join_code c env code t)
                    (Memory.get_by_join_code env code s) (ordered rec) rec
                    (ground (
                      arith,
                      q.live,
                      q.starts,
                      z,
                      h.1,
                      load_session-some c v t s g sid rec f (w.sessions sid rec f).1,
                    ))
                    (ground (arith, q.live, e, f)) refl
            ]
      ]

  -- `Join` at a time that the columns hold, in a call that gets through to the database, over a JSON
  -- encoding that keeps its law, on stores in agreement of which the one in memory keeps its invariant: the same error, or the same outcome
  -- up to the order of the session's members, with the stores still in agreement.
  pub join-Both :
      (sid : String) (req : JoinRequest)
      → IsTimed (or_now env req.now)
      → Both
          (λ a b. IsSame a.0 b.0 × Agrees c v a.1 b.1)
          (join c env sid req t)
          (Memory.join env sid req s)
  unfolding join join_loaded Memory.join join_session
  join-Both sid req d =
      let related = λ (a : JoinOutcome × Tables) (b : JoinOutcome × MemoryStore).
        IsSame a.0 b.0 × Agrees c v a.1 b.1 in
      let now = or_now env req.now in
      let fails = Both-err related (join c env sid req t) (Memory.join env sid req s) in
      elim (Option-cases (session_at s sid)) [
        | inl e ↦
            fails not_found (ground (arith, q.live, q.starts, load_session-none c v t s g sid e))
              (ground (arith, q.live, e))
        | inr (rec, e) ↦
            let load = load_session-some c v t s g sid rec e (w.sessions sid rec e).1 in
            let search =
              member_by_node_id-ordered rec req.node_id (w.sessions sid rec e).0.members in
            let age = is_expired-ordered rec now in
            elim (Bool-cases rec.closed) [
              | inl z ↦
                  fails closed (ground (arith, q.live, q.starts, load, z))
                    (ground (arith, q.live, e, z))
              | inr z ↦ elim (Bool-cases (is_expired rec now)) [
                | inl y ↦
                    fails expired (ground (arith, q.live, q.starts, load, z, y, age))
                      (ground (arith, q.live, e, z, y))
                | inr y ↦ elim (Option-cases (member_by_node_id rec req.node_id)) [
                  | inr (m, f) ↦
                      let (out, t', did, agreed, held) =
                        join_again-Agrees c v t s g sid req now rec m w d e f in
                      let back = rejoin req now rec m in
                      Both-ok related (join c env sid req t) (Memory.join env sid req s) (out, t')
                        (back, put_session sid back.session s)
                        (ground
                          (arith, q.live, q.starts, q.commits, load, z, y, age, search, f, did))
                        (ground (arith, q.live, e, z, y, f)) (agreed, held)
                  | inl f ↦
                      Both-lift
                        (λ (a : JoinOutcome × Tables) (b : JoinOutcome).
                          IsSame a.0 b × Agrees c v a.1 (put_session sid b.session s))
                        related (λ o. (o, put_session sid o.session s))
                        (join_new c env sid req now (ordered rec) t) (admit env req now rec)
                        (join c env sid req t) (Memory.join env sid req s)
                        (λ a h.
                          ground
                            (arith, q.live, q.starts, q.commits, load, z, y, age, search, f, h))
                        (λ x h.
                          ground
                            (arith, q.live, q.starts, q.commits, load, z, y, age, search, f, h))
                        (λ b h. ground (arith, q.live, e, z, y, f, h))
                        (λ x h. ground (arith, q.live, e, z, y, f, h)) (λ a b h. h)
                        (join_new-Both c v t s g sid env req now rec w d e)
                ]
              ]
            ]
      ]
