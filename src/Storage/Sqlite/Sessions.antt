-- ===== src/Storage/Sqlite/Sessions.antt =====
-- The tables and the store in memory after the writes to a session's own columns: `Revoke`,
-- `Close` and `Delete`.
use p2p_server.Base.{
  ℕ, ◌≡◌, refl, sym, ◌∙◌, ap, inl, inr, String, true, none, some, arith, String_discrete,
  Option-cases, map, All, same, if◌then◌else◌,
}
use mathlib.Core.Path.{subst}
use p2p_server.Base.Dict.{
  lookup, insert, erase, lookup-insert_self, lookup-insert_ne, lookup-erase_self, lookup-erase_ne,
}
use p2p_server.Base.Keys.{Distinct-keys-insert, Distinct-keys-erase}
use p2p_server.Base.Table.{delete_where, keep-delete_where_out, keep-delete_where_self}
use p2p_server.Storage.{Env, not_found, SessionRecord}
use p2p_server.Storage.Invariant.Stored.{session_at}
use p2p_server.Storage.Memory
use p2p_server.Storage.Memory.{MemoryStore, is_taken, put_session}
use p2p_server.Storage.Sqlite.{SessionRow, Tables, Json, IsJson}
use p2p_server.Storage.Sqlite.Agree.{
  IsQuiet, Both, Both-ok, Both-err, Agrees, row_at, write-Agrees, Holds-some, Holds-none, Holds,
}
use p2p_server.Storage.Sqlite.Calls.{
  revoke, close, delete, exec_session_update, set_revoked, set_closed,
}
use p2p_server.Storage.Sqlite.Columns.{member_row, IsHeld, IsDated}
use p2p_server.Storage.Sqlite.Entry.{set_session}
use p2p_server.Storage.Sqlite.Members.{is_here}
use p2p_server.Storage.Sqlite.Rows.{of_session, rows_of, session_row}

pub set_session_lem :
    (sid : String) (f : SessionRow → SessionRow) (t : Tables) (row : SessionRow)
    → row_at t sid ≡ some row
    → set_session sid f t ≡ record t { sessions = insert String_discrete sid (f row) t.sessions }
unfolding set_session
set_session_lem sid f t row e = rw (set_session, e) refl

module _ (c : Json) (v : IsJson c) (t : Tables) (s : MemoryStore) (g : Agrees c v t s)
    (sid : String) where
  -- The session's row written, where the store in memory writes the session and leaves its
  -- members.
  pub row-Agrees :
      (s' : MemoryStore) (rec rec' : SessionRecord) (f : SessionRow → SessionRow)
      → session_at s sid ≡ some rec
      → f (session_row rec) ≡ session_row rec'
      → rec'.members ≡ rec.members
      → IsDated rec'
      → s'.by_id ≡ insert String_discrete sid rec' s.by_id
      → Agrees c v (set_session sid f t) s'
  row-Agrees s' rec rec' f e written kept dated stored =
      let (row, rows, _, held) = Holds-some c v t s g sid rec e in
      let t' : Tables = record t {
        sessions = insert String_discrete sid (f (session_row rec)) t.sessions;
      } in
      let there : session_at s' sid ≡ some rec' =
        ap (lookup String_discrete sid) stored
        ∙ lookup-insert_self String_discrete sid rec' s.by_id in
      let this : Holds c v sid (row_at t' sid) (rows_of sid t') (some rec') = (
        lookup-insert_self String_discrete sid (f (session_row rec)) t.sessions ∙ ap some written,
        rows ∙ ap (map (member_row c v sid)) (sym kept),
        dated,
        subst (All (IsHeld sid)) (sym kept) held,
      ) in
      subst (λ z. Agrees c v z s') (sym (set_session_lem sid f t (session_row rec) row))
        (write-Agrees c v t t' s s' sid g
          (λ j n. (
            lookup-insert_ne String_discrete sid j (f (session_row rec)) t.sessions n,
            refl,
            ap (lookup String_discrete j) stored
                ∙ lookup-insert_ne String_discrete sid j rec' s.by_id n,
          ))
          (rw there this)
          (Distinct-keys-insert String_discrete sid (f (session_row rec)) t.sessions g.once))

  -- `Revoke`: on both stores it fails with the same error, or leaves them in agreement.
  pub revoke-Both :
      (env : Env) (now : ℕ)
      → IsQuiet env
      → Both (Agrees c v) (revoke env sid now t) (Memory.revoke env sid now s)
  unfolding revoke exec_session_update Memory.revoke
  revoke-Both env now q =
      let fails = Both-err (Agrees c v) (revoke env sid now t) (Memory.revoke env sid now s) in
      let fine = Both-ok (Agrees c v) (revoke env sid now t) (Memory.revoke env sid now s) in
      elim (Option-cases (session_at s sid)) [
        | inl e ↦
            let k = (Holds-none c v t s g sid e).0 in
            fails not_found (ground (arith, q.live, q.starts, k)) (ground (arith, q.live, e))
        | inr (rec, e) ↦
            let rec' : SessionRecord = record rec { revoked = true } in
            let dated = (Holds-some c v t s g sid rec e).2 in
            fine (set_session sid set_revoked t) (put_session sid rec' s)
              (ground (arith, q.live, q.starts, is_here c v t s g sid rec e))
              (ground (arith, q.live, e))
              (row-Agrees (put_session sid rec' s) rec rec' set_revoked e
                (unfold session_row in refl) refl
                (record { created = dated.created; expires = dated.expires }) refl)
      ]

  -- `Close`: on both stores it fails with the same error, or leaves them in agreement.
  pub close-Both :
      (env : Env) → IsQuiet env → Both (Agrees c v) (close env sid t) (Memory.close env sid s)
  unfolding close exec_session_update Memory.close
  close-Both env q =
      let fails = Both-err (Agrees c v) (close env sid t) (Memory.close env sid s) in
      let fine = Both-ok (Agrees c v) (close env sid t) (Memory.close env sid s) in
      elim (Option-cases (session_at s sid)) [
        | inl e ↦
            let k = (Holds-none c v t s g sid e).0 in
            fails not_found (ground (arith, q.live, q.starts, k)) (ground (arith, q.live, e))
        | inr (rec, e) ↦
            let rec' : SessionRecord = record rec { closed = true } in
            let dated = (Holds-some c v t s g sid rec e).2 in
            fine (set_session sid set_closed t) (put_session sid rec' s)
              (ground (arith, q.live, q.starts, is_here c v t s g sid rec e))
              (ground (arith, q.live, e))
              (row-Agrees (put_session sid rec' s) rec rec' set_closed e
                (unfold session_row in refl) refl
                (record { created = dated.created; expires = dated.expires }) refl)
      ]

  -- `Delete`: on both stores it fails with the same error, or leaves them in agreement, with no
  -- row of the session or of a member of it left.
  pub delete-Both :
      (env : Env) → IsQuiet env → Both (Agrees c v) (delete env sid t) (Memory.delete env sid s)
  unfolding delete Memory.delete
  delete-Both env q =
      let fails = Both-err (Agrees c v) (delete env sid t) (Memory.delete env sid s) in
      let fine = Both-ok (Agrees c v) (delete env sid t) (Memory.delete env sid s) in
      elim (Option-cases (session_at s sid)) [
        | inl e ↦
            let k = (Holds-none c v t s g sid e).0 in
            fails not_found (ground (arith, q.live, q.starts, k)) (ground (arith, q.live, e))
        | inr (rec, e) ↦
            let codes =
              if same rec.join_code ""
              then s.by_code
              else erase String_discrete (Memory.normalize_code rec.join_code) s.by_code in
            let s' : MemoryStore = record {
              by_id = erase String_discrete sid s.by_id;
              by_code = codes;
            } in
            let t' : Tables = record {
              sessions = erase String_discrete sid t.sessions;
              members = delete_where (of_session sid) t.members;
            } in
            let gone : Holds c v sid (row_at t' sid) (rows_of sid t') none = (
              lookup-erase_self String_discrete sid t.sessions,
              keep-delete_where_self (of_session sid) t.members,
            ) in
            fine t' s' (ground (arith, q.live, q.starts, q.commits, is_here c v t s g sid rec e))
              (ground (arith, q.live, e))
              (write-Agrees c v t t' s s' sid g
                (λ j n. (
                  lookup-erase_ne String_discrete sid j t.sessions n,
                  keep-delete_where_out (of_session j) (of_session sid) t.members
                      (λ r h. ground (arith, n, h)),
                  lookup-erase_ne String_discrete sid j s.by_id n,
                ))
                (subst (Holds c v sid (row_at t' sid) (rows_of sid t'))
                  (sym (lookup-erase_self String_discrete sid s.by_id)) gone)
                (Distinct-keys-erase String_discrete sid t.sessions g.once))
      ]
