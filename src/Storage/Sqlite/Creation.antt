-- ===== src/Storage/Sqlite/Creation.antt =====
-- The tables and the store in memory after `Create`.
use p2p_server.Base.{
  ◌≡◌, refl, sym, ◌∙◌, ap, ◌≢◌, inl, inr, false, [], map, none, some, arith, String_discrete,
  Option-cases, All,
}
use mathlib.Core.Path.{subst}
use p2p_server.Base.Dict.{lookup, insert, lookup-insert_self, lookup-insert_ne}
use p2p_server.Base.Keys.{Distinct-keys-insert}
use p2p_server.Storage.{Env, conflict, SessionRecord}
use p2p_server.Storage.Invariant.Codes.{HasRealCode}
use p2p_server.Storage.Invariant.Stored.{session_at, code_at, IsStore}
use p2p_server.Storage.Memory
use p2p_server.Storage.Memory.{
  MemoryStore, normalize_code, is_taken, swap_code, register_code, or_now,
}
use p2p_server.Storage.Sqlite.{Tables, Json, IsJson}
use p2p_server.Storage.Sqlite.Agree.{
  IsQuiet, Both, Both-ok, Both-err, Agrees, row_at, Holds-none, Holds, write-Agrees,
}
use p2p_server.Storage.Sqlite.Codes.{no_code}
use p2p_server.Storage.Sqlite.Columns.{IsHeld, IsDated, member_row}
use p2p_server.Storage.Sqlite.Entry.{create, insert_session, insert_members, is_norm_taken}
use p2p_server.Storage.Sqlite.Members.{is_here}
use p2p_server.Storage.Sqlite.Rotation.{is_norm_taken_lem}
use p2p_server.Storage.Sqlite.Rows.{session_row, rows_of}

module _ (c : Json) (v : IsJson c) (t : Tables) (s : MemoryStore) (g : Agrees c v t s)
    (w : IsStore s) where
  -- A row for a new session without members.
  add-Agrees :
      (s' : MemoryStore) (rec : SessionRecord)
      → session_at s rec.id ≡ none
      → rec.members ≡ []
      → IsDated rec
      → s'.by_id ≡ insert String_discrete rec.id rec s.by_id
      → Agrees c v
          (record t { sessions = insert String_discrete rec.id (session_row rec) t.sessions })
          s'
  add-Agrees s' rec e alone dated stored =
      let t' : Tables = record t {
        sessions = insert String_discrete rec.id (session_row rec) t.sessions;
      } in
      let there : session_at s' rec.id ≡ some rec =
        ap (lookup String_discrete rec.id) stored
        ∙ lookup-insert_self String_discrete rec.id rec s.by_id in
      let this : Holds c v rec.id (row_at t' rec.id) (rows_of rec.id t') (some rec) = (
        lookup-insert_self String_discrete rec.id (session_row rec) t.sessions,
        (Holds-none c v t s g rec.id e).1 ∙ ap (map (member_row c v rec.id)) (sym alone),
        dated,
        subst (All (IsHeld rec.id)) (sym alone) tt,
      ) in
      write-Agrees c v t t' s s' rec.id g
        (λ j n. (
          lookup-insert_ne String_discrete rec.id j (session_row rec) t.sessions n,
          refl,
          ap (lookup String_discrete j) stored
              ∙ lookup-insert_ne String_discrete rec.id j rec s.by_id n,
        ))
        (rw there this)
        (Distinct-keys-insert String_discrete rec.id (session_row rec) t.sessions g.once)

  -- `Create` of a session with an ID, a time of creation and no members, whose code is none or a
  -- real one and whose times the columns hold: on both stores it fails with the same error, or
  -- returns the same record and leaves them in agreement.
  pub create-Both :
      (env : Env) (rec : SessionRecord)
      → IsQuiet env
      → rec.id ≢ ""
      → rec.created_at ≢ 0
      → rec.members ≡ []
      → HasRealCode rec.join_code
      → IsDated rec
      → Both
          (λ a b. (a.0 ≡ b.0) × Agrees c v a.1 b.1)
          (create c env rec t)
          (Memory.create env rec s)
  unfolding create insert_session insert_members Memory.create register_code
  create-Both env rec q named timed alone code dated =
      let fails =
        Both-err (λ a b. (a.0 ≡ b.0) × Agrees c v a.1 b.1) (create c env rec t)
          (Memory.create env rec s) in
      let fine =
        Both-ok (λ a b. (a.0 ≡ b.0) × Agrees c v a.1 b.1) (create c env rec t)
          (Memory.create env rec s) in
      elim (Option-cases (session_at s rec.id)) [
        | inr (r, e) ↦
            fails conflict (ground (arith, named, q.live, q.starts, is_here c v t s g rec.id r e))
              (ground (arith, q.live, e))
        | inl e ↦
            let k = (Holds-none c v t s g rec.id e).0 in
            let t' : Tables = record t {
              sessions = insert String_discrete rec.id (session_row rec) t.sessions;
            } in
            let at_time : or_now env rec.created_at ≡ rec.created_at = ground (arith, timed) in
            elim code [
              | inl plain ↦
                  let untaken : is_norm_taken (normalize_code rec.join_code) t ≡ false =
                    ground (arith, ap normalize_code plain, no_code) in
                  let s' : MemoryStore = record s {
                    by_id = insert String_discrete rec.id rec s.by_id;
                  } in
                  fine (rec, t') (rec, s')
                    (ground (arith, named, q.live, q.starts, q.commits, k, untaken, alone))
                    (ground (arith, q.live, e, plain, at_time))
                    (refl, add-Agrees s' rec e alone dated refl)
              | inr (coded, real) ↦
                  let taken = is_norm_taken_lem c v t s g w (normalize_code rec.join_code) real in
                  elim (Option-cases (code_at s (normalize_code rec.join_code))) [
                    | inr (j, f) ↦
                        fails conflict (ground (arith, named, q.live, q.starts, k, taken, f))
                          (ground (arith, q.live, e, coded, f))
                    | inl f ↦
                        let s' : MemoryStore = record {
                          by_id = insert String_discrete rec.id rec s.by_id;
                          by_code =
                              insert String_discrete (normalize_code rec.join_code) rec.id
                                s.by_code;
                        } in
                        fine (rec, t') (rec, s')
                          (ground (arith, named, q.live, q.starts, q.commits, k, taken, f, alone))
                          (ground (arith, q.live, e, coded, f, at_time))
                          (refl, add-Agrees s' rec e alone dated refl)
                  ]
            ]
      ]
