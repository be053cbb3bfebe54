-- ===== src/Storage/Runs.antt =====
-- internal/storage/store.go: sequences of calls through the interface, on any store.
use p2p_server.Base.{List, [], ◌∷◌, Option, none, some, Result, ok, err}
use p2p_server.Storage.{Env, StoreError, Store}
use p2p_server.Storage.Invariant.History.{
  Call, creates, joins, updates, removes, marks_offline, revokes, rotates, closes, deletes, after,
}

-- The new state without the answer.
abbrev pub state_of {ℓ} :
    {A : Type ℓ} {S : Type 0} → Result StoreError (A × S) → Result StoreError S
state_of (ok (_, s)) = ok s
state_of (err e) = err e

-- A call of the interface, on either store.
abbrev pub perform : (st : Store) → Env → Call → st.State → Result StoreError st.State
perform st env (creates rec) s = state_of (st.create env rec s)
perform st env (joins sid req) s = state_of (st.join env sid req s)
perform st env (updates sid m) s = st.update_member env sid m s
perform st env (removes sid mid) s = st.remove_member env sid mid s
perform st env (marks_offline sid mid conn now) s = st.mark_offline env sid mid conn now s
perform st env (revokes sid now) s = st.revoke env sid now s
perform st env (rotates sid hash code now) s = st.rotate_token env sid hash code now s
perform st env (closes sid) s = st.close env sid s
perform st env (deletes sid) s = st.delete env sid s

abbrev pub failure : {S : Type 0} → Result StoreError S → Option StoreError
failure (ok _) = none
failure (err e) = some e

-- The state after a sequence of calls, each of which fails or changes it.
abbrev pub final : (st : Store) → List (Env × Call) → st.State → st.State
final st [] s = s
final st ((env, call) ∷ calls) s = final st calls (after s (perform st env call s))

-- The errors of the calls, or none where a call succeeded.
abbrev pub failures : (st : Store) → List (Env × Call) → st.State → List (Option StoreError)
failures st [] s = []
failures st ((env, call) ∷ calls) s =
    failure (perform st env call s) ∷ failures st calls (after s (perform st env call s))
