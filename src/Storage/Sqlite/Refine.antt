-- ===== src/Storage/Sqlite/Refine.antt =====
-- The SQLite store beside the store in memory, under sequences of calls of the interface.
use p2p_server.Base.{◌≡◌, refl, sym, ap, ◌≢◌, String, List, [], ◌∷◌, some, Result, ok, err}
use mathlib.Core.Path.{subst, ap₂}
use p2p_server.Base.Dict.{lookup}
use p2p_server.Base.Search.{keep}
use p2p_server.Storage.{Env, StoreError}
use p2p_server.Storage.Invariant.History.{
  Call, creates, joins, updates, removes, marks_offline, revokes, rotates, closes, deletes, after,
  after_pair, step, IsProper, step-IsStore,
}
use p2p_server.Storage.Invariant.Codes.{new_memory-IsStore}
use p2p_server.Storage.Invariant.Stored.{IsStore}
use p2p_server.Storage.Memory
use p2p_server.Storage.Memory.{MemoryStore, memory, or_now, new_memory}
use p2p_server.Storage.Runs.{state_of, perform, failure, final, failures}
use p2p_server.Storage.Sqlite.{new_tables, Tables, Json, IsJson}
use p2p_server.Storage.Sqlite.Agree.{IsQuiet, Both, Agrees}
use p2p_server.Storage.Sqlite.Answers.{join-Both, get-Both}
use p2p_server.Storage.Sqlite.Calls.{sqlite}
use p2p_server.Storage.Sqlite.Columns.{IsTimed, IsHeld, IsDated}
use p2p_server.Storage.Sqlite.Creation.{create-Both}
use p2p_server.Storage.Sqlite.Entry
use p2p_server.Storage.Sqlite.Order.{ordered}
use p2p_server.Storage.Sqlite.Rejoin.{IsSame}
use p2p_server.Storage.Sqlite.Rotation.{rotate_token-Both}
use p2p_server.Storage.Sqlite.Sessions.{revoke-Both, close-Both, delete-Both}
use p2p_server.Storage.Sqlite.Writes.{update_member-Both, remove_member-Both, mark_offline-Both}

-- What the columns can hold: times in range, members under their session, and a session with an ID
-- and a time of creation that starts without members.
abbrev pub IsStorable : Env → Call → Type 0
IsStorable env (creates rec) =
    (rec.id ≢ "") × (rec.created_at ≢ 0) × (rec.members ≡ []) × IsDated rec
IsStorable env (joins sid req) = IsTimed (or_now env req.now)
IsStorable env (updates sid m) = IsHeld sid m
IsStorable env (marks_offline sid mid conn now) = IsTimed (or_now env now)
IsStorable env _ = Unit {0}

-- Calls that get through to the database, that callers may make on the store in memory, and that
-- keep to what the columns hold.
abbrev pub AreProper : List (Env × Call) → MemoryStore → Type 0
AreProper [] s = Unit {0}
AreProper ((env, call) ∷ calls) s =
    IsQuiet env
    × IsProper s call
    × IsStorable env call
    × AreProper calls (after s (perform memory env call s))

after-state_of {ℓ} :
    {A : Type ℓ} {S : Type 0} (s : S) (r : Result StoreError (A × S))
    → after s (state_of r) ≡ after_pair s r
after-state_of s (ok (a, s')) = refl
after-state_of s (err e) = refl

-- The state after a call is that of `step`.
after-perform :
    (env : Env) (call : Call) (s : MemoryStore)
    → after s (perform memory env call s) ≡ step env call s
unfolding step
after-perform env (creates rec) s = after-state_of s (memory.create env rec s)
after-perform env (joins sid req) s = after-state_of s (memory.join env sid req s)
after-perform env (updates sid m) s = refl
after-perform env (removes sid mid) s = refl
after-perform env (marks_offline sid mid conn now) s = refl
after-perform env (revokes sid now) s = refl
after-perform env (rotates sid hash code now) s = refl
after-perform env (closes sid) s = refl
after-perform env (deletes sid) s = refl

Both-state_of :
    {A B S T : Type 0} (P : A → B → Type 0) (R : S → T → Type 0) (r : Result StoreError (A × S))
    (q : Result StoreError (B × T))
    → Both (λ a b. P a.0 b.0 × R a.1 b.1) r q
    → Both R (state_of r) (state_of q)
Both-state_of P R (ok (a, s)) (ok (b, t)) h = h.1
Both-state_of P R (err e) (err f) h = h
Both-state_of P R (ok _) (err f) h = h
Both-state_of P R (err e) (ok _) h = h

Both-after :
    {c : Json} {v : IsJson c} (t : Tables) (s : MemoryStore) (r : Result StoreError Tables)
    (q : Result StoreError MemoryStore)
    → Agrees c v t s
    → Both (Agrees c v) r q
    → (failure r ≡ failure q) × Agrees c v (after t r) (after s q)
Both-after t s (ok t') (ok s') g h = (refl, h)
Both-after t s (err e) (err f) g h = (ap some h, g)
Both-after t s (ok t') (err f) g h = elim h [ ]
Both-after t s (err e) (ok s') g h = elim h [ ]

module _ (c : Json) (v : IsJson c) where
  -- A proper call that gets through to the database and keeps to what its columns hold, on stores in
  -- agreement of which the one in memory keeps its invariant, fails on both with the same error or
  -- leaves them in agreement.
  pub perform-Both :
      (env : Env) (call : Call) (t : Tables) (s : MemoryStore)
      → IsQuiet env
      → IsProper s call
      → IsStorable env call
      → IsStore s
      → Agrees c v t s
      → Both (Agrees c v) (perform (sqlite c) env call t) (perform memory env call s)
  perform-Both env (creates rec) t s q p (named, timed, alone, dated) w g =
      Both-state_of (λ a b. a ≡ b) (Agrees c v) (Entry.create c env rec t) (Memory.create env rec s)
        (create-Both c v t s g w env rec q named timed alone p.1 dated)
  perform-Both env (joins sid req) t s q p d w g =
      Both-state_of IsSame (Agrees c v) (Entry.join c env sid req t) (Memory.join env sid req s)
        (join-Both c v t s g w env q sid req d)
  perform-Both env (updates sid m) t s q p d w g = update_member-Both c v t s g sid env m q w d p
  perform-Both env (removes sid mid) t s q p d w g = remove_member-Both c v t s g sid env mid q w
  perform-Both env (marks_offline sid mid conn now) t s q p d w g =
      mark_offline-Both c v t s g sid env mid conn now q w d
  perform-Both env (revokes sid now) t s q p d w g = revoke-Both c v t s g sid env now q
  perform-Both env (rotates sid hash code now) t s q p d w g =
      rotate_token-Both c v t s g w sid env hash code now q p
  perform-Both env (closes sid) t s q p d w g = close-Both c v t s g sid env q
  perform-Both env (deletes sid) t s q p d w g = delete-Both c v t s g sid env q

  -- After any sequence of proper calls that get through to the database and keep to what its columns
  -- hold, the SQLite store has failed in the same calls with the same errors as the store in memory,
  -- and their contents agree, if they did at first and the store in memory kept its invariant.
  pub failures-Agrees :
      (calls : List (Env × Call)) (t : Tables) (s : MemoryStore)
      → AreProper calls s
      → IsStore s
      → Agrees c v t s
      → (failures (sqlite c) calls t ≡ failures memory calls s)
        × Agrees c v (final (sqlite c) calls t) (final memory calls s)
  failures-Agrees [] t s p w g = (refl, g)
  failures-Agrees ((env, call) ∷ calls) t s (q, proper, storable, rest) w g =
      let (same_error, agreed) =
        Both-after t s (perform (sqlite c) env call t) (perform memory env call s) g
          (perform-Both env call t s q proper storable w g) in
      let kept =
        subst IsStore (sym (after-perform env call s)) (step-IsStore env call s proper w) in
      let later =
        failures-Agrees calls (after t (perform (sqlite c) env call t))
          (after s (perform memory env call s)) rest kept agreed in
      (ap₂ ◌∷◌ same_error later.0, later.1)

  pub final-IsStore :
      (calls : List (Env × Call)) (s : MemoryStore)
      → AreProper calls s
      → IsStore s
      → IsStore (final memory calls s)
  final-IsStore [] s p w = w
  final-IsStore ((env, call) ∷ calls) s (q, proper, storable, rest) w =
      final-IsStore calls (after s (perform memory env call s)) rest
        (subst IsStore (sym (after-perform env call s)) (step-IsStore env call s proper w))

  pub new_tables-Agrees : Agrees c v new_tables new_memory
  unfolding new_tables new_memory lookup keep
  new_tables-Agrees = record { holds = λ sid. (refl, refl); once = tt }

  -- A new SQLite store and a new store in memory, over a JSON encoding that keeps its law, after any
  -- sequence of calls of the following kind. They get through to the database; they keep to what its
  -- columns hold (times in range, a member updated under its session with an index of 16 bits, a
  -- session created with an ID and a time of creation and without members); and they are proper (a
  -- session is created within its join limit and with no code or a real one, which is not all blanks
  -- and dashes, an update leaves the member's node and index, and a token is rotated to a real code).
  -- Then the same calls failed with the same errors, and a `Get` that gets through finds the session
  -- in both, with its members in the order of their indices in SQLite, or fails with the same error
  -- in both.
  pub get-final :
      (calls : List (Env × Call)) (env : Env) (sid : String)
      → AreProper calls new_memory
      → IsQuiet env
      → (failures (sqlite c) calls new_tables ≡ failures memory calls new_memory)
        × Both
            (λ a b. a ≡ ordered b)
            ((sqlite c).get env sid (final (sqlite c) calls new_tables))
            (memory.get env sid (final memory calls new_memory))
  get-final calls env sid p q =
      let kept = final-IsStore calls new_memory p new_memory-IsStore in
      let run =
        failures-Agrees calls new_tables new_memory p new_memory-IsStore new_tables-Agrees in
      (
        run.0,
        get-Both c v (final (sqlite c) calls new_tables) (final memory calls new_memory) run.1 kept
            env q sid,
      )
