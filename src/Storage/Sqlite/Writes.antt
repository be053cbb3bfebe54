-- ===== src/Storage/Sqlite/Writes.antt =====
-- The tables and the store in memory after `UpdateMember`, `RemoveMember` and `MarkOffline`.
use p2p_server.Base.{
  ℕ, ◌≡◌, refl, sym, ◌∙◌, ap, inl, inr, String, Bool, true, false, not, ◌&&◌, List, [], ◌∷◌, map,
  none, some, arith, same, Option-cases, All, Bool-cases, if◌then◌else◌,
}
use p2p_server.Base.Keyed.{update_where-modify_self, delete_where-remove_first}
use p2p_server.Base.Search.{find, modify, remove_first}
use p2p_server.Base.Table.{
  update_where, delete_where, keep-keep, keep-delete_where_out, find-keep, any-find-some,
  any-find-none, keep-map, find-map-some, find-map-none,
}
use p2p_server.Storage.{
  Env, not_found, member_missing, conflict, MemberRecord, SessionRecord, has_id, member_by_id,
}
use p2p_server.Storage.Invariant.Stored.{session_at, IsStore}
use p2p_server.Storage.Memory
use p2p_server.Storage.Memory.{MemoryStore, is_taken, put_session, or_now, go_offline}
use p2p_server.Storage.Sqlite.{Tables, Json, IsJson}
use p2p_server.Storage.Sqlite.Agree.{
  IsQuiet, Both, Both-ok, Both-err, Agrees, Holds-some, Holds-none,
}
use p2p_server.Storage.Sqlite.Calls.{update_member, remove_member, mark_offline, set_offline}
use p2p_server.Storage.Sqlite.Columns.{member_row, IsHeld, IsTimed}
use p2p_server.Storage.Sqlite.Members.{
  is_member-of_session, is_member_elsewhere, id-IsTest, All-modify, is_member-member_row,
  any-is_member, is_here, members-Agrees, update-Agrees, update_member_row-none,
  update_member_row-Agrees,
}
use p2p_server.Storage.Sqlite.Rows.{of_session, is_member, rows_of}

All-remove_first_members :
    (P : MemberRecord → Type 0) (p : MemberRecord → Bool) (ms : List MemberRecord)
    → All P ms
    → All P (remove_first p ms)
unfolding remove_first
All-remove_first_members P p [] h = tt
All-remove_first_members P p (m ∷ ms) h =
    elim (p m) as (λ b. All P (if b then ms else m ∷ remove_first p ms)) [
      | true ↦ h.1
      | false ↦ (h.0, All-remove_first_members P p ms h.1)
    ]

module _ (c : Json) (v : IsJson c) (t : Tables) (s : MemoryStore) (g : Agrees c v t s)
    (sid : String) where
  -- `UpdateMember` with a member that its row holds whole, of the node and index of the member
  -- whom it replaces, if there is one: on both stores it fails with the same error, or leaves them
  -- in agreement.
  pub update_member-Both :
      (env : Env) (m : MemberRecord)
      → IsQuiet env
      → IsStore s
      → IsHeld sid m
      → ((rec : SessionRecord) (c0 : MemberRecord)
          → session_at s sid ≡ some rec
          → member_by_id rec m.id ≡ some c0
          → (m.node_id ≡ c0.node_id) × (m.index ≡ c0.index))
      → Both (Agrees c v) (update_member c env sid m t) (Memory.update_member env sid m s)
  unfolding update_member Memory.update_member
  update_member-Both env m q w held same_place =
      let fails =
        Both-err (Agrees c v) (update_member c env sid m t) (Memory.update_member env sid m s) in
      let fine =
        Both-ok (Agrees c v) (update_member c env sid m t) (Memory.update_member env sid m s) in
      elim (Bool-cases (same m.id "")) [
        | inl z ↦ fails member_missing (ground (arith, z, q.live)) (ground (arith, z, q.live))
        | inr z ↦ elim (Option-cases (session_at s sid)) [
          | inl e ↦
              let k = (Holds-none c v t s g sid e).0 in
              fails not_found (ground (arith, z, q.live, q.starts, k))
                (ground (arith, z, q.live, e))
          | inr (rec, e) ↦ elim (Option-cases (member_by_id rec m.id)) [
            | inl f ↦
                fails member_missing
                  (ground
                    (arith, z, q.live, q.starts, update_member_row-none c v t s g sid rec m e f))
                  (ground (arith, z, q.live, e, f))
            | inr (c0, f) ↦
                let ms = modify (has_id m.id) (λ _. m) rec.members in
                let u =
                  update_member_row-Agrees c v t s g sid rec m c0 ms w e f (same_place rec c0 e f).1
                    (update_where-modify_self (λ x. x.id) (has_id m.id) m.id (id-IsTest m.id)
                      (λ _. m) rec.members (w.sessions sid rec e).0.members.ids_differ)
                    (All-modify (IsHeld sid) (has_id m.id) (λ _. m) rec.members (λ _ _. held)
                      (Holds-some c v t s g sid rec e).3) in
                fine u.0 (put_session sid (record rec { members = ms }) s)
                  (ground (arith, z, q.live, q.starts, q.commits, u.1, is_here c v t s g sid rec e))
                  (ground (arith, z, q.live, e, f)) u.2
          ]
        ]
      ]

  -- `RemoveMember`: on both stores it fails with the same error, or leaves them in agreement.
  pub remove_member-Both :
      (env : Env) (mid : String)
      → IsQuiet env
      → IsStore s
      → Both (Agrees c v) (remove_member env sid mid t) (Memory.remove_member env sid mid s)
  unfolding remove_member Memory.remove_member
  remove_member-Both env mid q w =
      let fails =
        Both-err (Agrees c v) (remove_member env sid mid t) (Memory.remove_member env sid mid s) in
      let fine =
        Both-ok (Agrees c v) (remove_member env sid mid t) (Memory.remove_member env sid mid s) in
      elim (Option-cases (session_at s sid)) [
        | inl e ↦
            let k = (Holds-none c v t s g sid e).0 in
            fails not_found (ground (arith, q.live, q.starts, k)) (ground (arith, q.live, e))
        | inr (rec, e) ↦ elim (Option-cases (member_by_id rec mid)) [
          | inl f ↦
              let none_there =
                any-is_member c v t s g sid mid rec e ∙ any-find-none (has_id mid) rec.members f in
              fails member_missing
                (ground (arith, q.live, q.starts, none_there, is_here c v t s g sid rec e))
                (ground (arith, q.live, e, f))
          | inr (c0, f) ↦
              let there =
                any-is_member c v t s g sid mid rec e
                ∙ any-find-some (has_id mid) rec.members c0 f in
              let ms = remove_first (has_id mid) rec.members in
              fine (record t { members = delete_where (is_member sid mid) t.members })
                (put_session sid (record rec { members = ms }) s)
                (ground (arith, q.live, q.starts, q.commits, there, is_here c v t s g sid rec e))
                (ground (arith, q.live, e, f))
                (members-Agrees c v t s g sid rec (delete_where (is_member sid mid) t.members) ms e
                  (keep-keep (of_session sid) (λ r. not (is_member sid mid r)) t.members
                    ∙ (ap (delete_where (is_member sid mid)) (Holds-some c v t s g sid rec e).1
                        ∙ (keep-map (member_row c v sid) (λ r. not (is_member sid mid r))
                              (λ m. not (has_id mid m)) rec.members
                              (λ m. ap not (is_member-member_row c v t s g sid mid m))
                            ∙ ap (map (member_row c v sid)) (
                                delete_where-remove_first (λ x. x.id) (has_id mid) mid
                                  (id-IsTest mid) rec.members
                                  (w.sessions sid rec e).0.members.ids_differ))))
                  (λ j n.
                    keep-delete_where_out (of_session j) (is_member sid mid) t.members
                      (λ r h. is_member_elsewhere sid mid j r n h))
                  (All-remove_first_members (IsHeld sid) (has_id mid) rec.members
                    (Holds-some c v t s g sid rec e).3))
        ]
      ]

  find_row :
      (mid : String) (rec : SessionRecord)
      → session_at s sid ≡ some rec
      → find (is_member sid mid) t.members
        ≡ find (is_member sid mid) (map (member_row c v sid) rec.members)
  find_row mid rec e =
      sym (find-keep (of_session sid) (is_member sid mid) t.members (is_member-of_session sid mid))
      ∙ ap (find (is_member sid mid)) (Holds-some c v t s g sid rec e).1

  find_row-none :
      (mid : String) (rec : SessionRecord)
      → session_at s sid ≡ some rec
      → member_by_id rec mid ≡ none
      → find (is_member sid mid) t.members ≡ none
  find_row-none mid rec e f =
      find_row mid rec e
      ∙ find-map-none (member_row c v sid) (is_member sid mid) (has_id mid) rec.members
          (is_member-member_row c v t s g sid mid) f

  find_row-some :
      (mid : String) (rec : SessionRecord) (m : MemberRecord)
      → session_at s sid ≡ some rec
      → member_by_id rec mid ≡ some m
      → find (is_member sid mid) t.members ≡ some (member_row c v sid m)
  find_row-some mid rec m e f =
      find_row mid rec e
      ∙ find-map-some (member_row c v sid) (is_member sid mid) (has_id mid) rec.members m
          (is_member-member_row c v t s g sid mid) f

  find_nobody : (mid : String) → rows_of sid t ≡ [] → find (is_member sid mid) t.members ≡ none
  unfolding find
  find_nobody mid e =
      sym (find-keep (of_session sid) (is_member sid mid) t.members (is_member-of_session sid mid))
      ∙ ap (find (is_member sid mid)) e

  offline_row :
      (now : ℕ) (m : MemberRecord)
      → set_offline now (member_row c v sid m) ≡ member_row c v sid (go_offline now m)
  unfolding set_offline member_row go_offline
  offline_row now m = refl

  offline-IsHeld :
      (now : ℕ) (m : MemberRecord) → IsTimed now → IsHeld sid m → IsHeld sid (go_offline now m)
  unfolding go_offline
  offline-IsHeld now m d h = record {
    here = h.here;
    narrow = h.narrow;
    joined = h.joined;
    seen = h.seen;
    left = d;
  }

  -- `MarkOffline` at a time that the columns hold: on both stores it fails with the same error, or
  -- leaves them in agreement.
  pub mark_offline-Both :
      (env : Env) (mid conn : String) (now : ℕ)
      → IsQuiet env
      → IsStore s
      → IsTimed (or_now env now)
      → Both
          (Agrees c v)
          (mark_offline env sid mid conn now t)
          (Memory.mark_offline env sid mid conn now s)
  unfolding mark_offline Memory.mark_offline
  mark_offline-Both env mid conn now0 q w d =
      let fails =
        Both-err (Agrees c v) (mark_offline env sid mid conn now0 t)
          (Memory.mark_offline env sid mid conn now0 s) in
      let fine =
        Both-ok (Agrees c v) (mark_offline env sid mid conn now0 t)
          (Memory.mark_offline env sid mid conn now0 s) in
      let now = or_now env now0 in
      elim (Option-cases (session_at s sid)) [
        | inl e ↦
            let k = (Holds-none c v t s g sid e) in
            fails not_found (ground (arith, q.live, q.starts, k.0, find_nobody mid k.1))
              (ground (arith, q.live, e))
        | inr (rec, e) ↦ elim (Option-cases (member_by_id rec mid)) [
          | inl f ↦
              fails member_missing
                (ground
                  (arith, q.live, q.starts, find_row-none mid rec e f, is_here c v t s g sid rec e))
                (ground (arith, q.live, e, f))
          | inr (m, f) ↦
              let there = find_row-some mid rec m e f in
              let same_conn : (member_row c v sid m).connection_id ≡ m.connection_id =
                unfold member_row in refl in
              elim (Bool-cases (not (same conn "") && not (same m.connection_id conn))) [
                | inl z ↦
                    fails conflict (ground (arith, q.live, q.starts, there, same_conn, z))
                      (ground (arith, q.live, e, f, z))
                | inr z ↦
                    let ms = modify (has_id mid) (go_offline now) rec.members in
                    fine
                      (record t {
                        members = update_where (is_member sid mid) (set_offline now) t.members;
                      })
                      (put_session sid (record rec { members = ms }) s)
                      (ground (arith, q.live, q.starts, q.commits, there, same_conn, z))
                      (ground (arith, q.live, e, f, z))
                      (update-Agrees c v t s g sid rec mid (go_offline now) (set_offline now) ms e
                        (λ x h. offline_row now x) (λ r. unfold set_offline in refl)
                        (update_where-modify_self (λ x. x.id) (has_id mid) mid (id-IsTest mid)
                          (go_offline now) rec.members (w.sessions sid rec e).0.members.ids_differ)
                        (All-modify (IsHeld sid) (has_id mid) (go_offline now) rec.members
                          (λ x. offline-IsHeld now x d) (Holds-some c v t s g sid rec e).3))
              ]
        ]
      ]
