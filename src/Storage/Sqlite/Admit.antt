-- ===== src/Storage/Sqlite/Admit.antt =====
-- The branch of `Join` for a node that is new to the session, in the tables and in memory.
use p2p_server.Base.{
  ℕ, ◌+◌, ◌≡◌, refl, sym, ◌∙◌, ap, ◌≢◌, inl, inr, String, Bool, true, false, List, [], ◌∷◌, ◌++◌,
  map, some, ok, err, arith, same, same_refl, String_discrete, Result-cases, if◌then◌else◌,
  All-append, ◌==◌,
}
use mathlib.Core.List.{map-append, append-nil}
use mathlib.Core.Path.{ap₂}
use p2p_server.Base.Dict.{insert-insert, lookup-insert_self}
use p2p_server.Base.Search.{any, keep}
use p2p_server.Base.Table.{any-keep, any-map, any-find-none, keep-append}
use p2p_server.Protocol.{is_active}
use p2p_server.Storage.{
  Env, StoreError, MemberRecord, SessionRecord, JoinRequest, JoinOutcome, has_id, is_used,
}
use p2p_server.Storage.Admission.{new_member, must_wait, admitted, admit}
use p2p_server.Storage.Ids.Fresh.{new_member_id-fresh}
use p2p_server.Storage.Index.{free_index-FreeFrom}
use p2p_server.Storage.Invariant.{admit_ok, unused_differs, AreMembers}
use p2p_server.Storage.Invariant.Stored.{session_at, IsStore}
use p2p_server.Storage.Memory.{MemoryStore, put_session}
use p2p_server.Storage.Sqlite.{Tables, Json, IsJson}
use p2p_server.Storage.Sqlite.Agree.{Agrees, Both, Both-ok, Both-err, Holds-some}
use p2p_server.Storage.Sqlite.Canonical.{by_index-append}
use p2p_server.Storage.Sqlite.Columns.{IsHeld, IsTimed, member_row, encode_member_lem}
use p2p_server.Storage.Sqlite.Entry.{join_new, entrant, count_join, set_session}
use p2p_server.Storage.Sqlite.Members.{any-is_member, is_here, members-Agrees}
use p2p_server.Storage.Sqlite.Order.{
  ordered, free_index-ordered, new_member_id-ordered, count-by_index,
}
use p2p_server.Storage.Sqlite.Rejoin.{IsSame}
use p2p_server.Storage.Sqlite.Rows.{of_session, has_index, insert_row, insert_member, session_row}
use p2p_server.Storage.Sqlite.Sessions.{row-Agrees}

-- The member written is the one that the store in memory adds.
entrant-ordered :
    (env : Env) (sid : String) (req : JoinRequest) (now : ℕ) (rec : SessionRecord)
    → AreMembers rec.members
    → rec.id ≡ sid
    → entrant env sid req now (ordered rec) ≡ new_member env req now rec (must_wait rec)
unfolding entrant new_member
entrant-ordered env sid req now rec v own =
    rw (new_member_id-ordered rec v env, free_index-ordered rec, ← own) refl

count_join-session_row :
    (first : Bool) (id : String) (rec : SessionRecord) (ms : List MemberRecord)
    → count_join first id (session_row rec)
      ≡ session_row (record rec {
        owner_member_id = if first then id else rec.owner_member_id;
        members = ms;
        joins_used = rec.joins_used + 1;
      })
unfolding count_join session_row
count_join-session_row true id rec ms = refl
count_join-session_row false id rec ms = refl

module _ (c : Json) (v : IsJson c) (t : Tables) (s : MemoryStore) (g : Agrees c v t s)
    (sid : String) where
  -- The INSERT of a member with an ID and an index that no member has.
  insert_member_lem :
      (rec : SessionRecord) (m : MemberRecord)
      → session_at s sid ≡ some rec
      → any (has_id m.id) rec.members ≡ false
      → is_used rec.members m.index ≡ false
      → insert_member c sid m t ≡ ok (record t { members = t.members ++ member_row c v sid m ∷ [] })
  unfolding insert_member insert_row member_row
  insert_member_lem rec m e new free =
      let a = any-is_member c v t s g sid m.id rec e ∙ new in
      let b : any (has_index sid m.index) t.members ≡ false =
        sym (any-keep (of_session sid) (has_index sid m.index) t.members (λ r h. ground arith))
        ∙ (ap (any (has_index sid m.index)) (Holds-some c v t s g sid rec e).1
            ∙ (any-map (member_row c v sid) (has_index sid m.index) (λ x. x.index == m.index)
                  rec.members (λ x. ground (arith, same_refl sid))
                ∙ free)) in
      let enc = encode_member_lem c v sid m in rw (enc, a, b, is_here c v t s g sid rec e) refl

  keep-own :
      (m : MemberRecord)
      → keep (of_session sid) (member_row c v sid m ∷ []) ≡ map (member_row c v sid) (m ∷ [])
  unfolding keep member_row
  keep-own m = rw (same_refl sid) refl

  keep-other :
      (m : MemberRecord) (j : String)
      → sid ≢ j
      → keep (of_session j) (member_row c v sid m ∷ []) ≡ []
  unfolding keep member_row
  keep-other m j n = ground (arith, n)

  -- A member's row added, where the store in memory appends the member.
  append-Agrees :
      (rec : SessionRecord) (m : MemberRecord)
      → session_at s sid ≡ some rec
      → IsHeld sid m
      → Agrees c v
          (record t { members = t.members ++ member_row c v sid m ∷ [] })
          (put_session sid (record rec { members = rec.members ++ m ∷ [] }) s)
  append-Agrees rec m e held =
      let (_, rows, _, all) = Holds-some c v t s g sid rec e in
      members-Agrees c v t s g sid rec (t.members ++ member_row c v sid m ∷ [])
        (rec.members ++ m ∷ []) e
        (keep-append (of_session sid) t.members (member_row c v sid m ∷ [])
          ∙ ap₂ ◌++◌ rows (keep-own m)
          ∙ sym (map-append (member_row c v sid) rec.members (m ∷ [])))
        (λ j n.
          keep-append (of_session j) t.members (member_row c v sid m ∷ [])
          ∙ ap (λ rs. keep (of_session j) t.members ++ rs) (keep-other m j n)
          ∙ append-nil (keep (of_session j) t.members))
        (All-append (IsHeld sid) rec.members (m ∷ []) all (held, tt))

  abbrev entry : Env → JoinRequest → ℕ → SessionRecord → MemberRecord
  entry env req now rec = new_member env req now rec (must_wait rec)

  abbrev first : SessionRecord → Bool
  first rec = same rec.owner_member_id ""

  -- The session in the answer.
  abbrev joined : MemberRecord → SessionRecord → SessionRecord
  joined m rec = record rec {
    owner_member_id = if first rec then m.id else rec.owner_member_id;
    members = rec.members ++ m ∷ [];
    joins_used = rec.joins_used + 1;
  }

  abbrev outcome : MemberRecord → SessionRecord → JoinOutcome
  outcome m rec = record {
    session = joined m rec;
    member = m;
    rejoined = false;
    is_owner = first rec;
  }

  abbrev with_row : MemberRecord → Tables
  with_row m = record t { members = t.members ++ member_row c v sid m ∷ [] }

  module _ (env : Env) (req : JoinRequest) (now : ℕ) (rec : SessionRecord) where
    join_new-err :
        (x : StoreError)
        → admit env req now rec ≡ err x
        → join_new c env sid req now (ordered rec) t ≡ err x
    unfolding admit join_new
    join_new-err x h =
        ground
          (arith, h, count-by_index (λ m. is_active m.status) rec.members, free_index-ordered rec)

    join_new-ok :
        (m : MemberRecord) (out : JoinOutcome)
        → admit env req now rec ≡ ok out
        → entrant env sid req now (ordered rec) ≡ m
        → insert_member c sid m t ≡ ok (with_row m)
        → join_new c env sid req now (ordered rec) t
          ≡ ok (outcome m (ordered rec), set_session sid (count_join (first rec) m.id) (with_row m))
    unfolding admit join_new
    join_new-ok m out h q k = ground (
      arith,
      h,
      q,
      k,
      count-by_index (λ m. is_active m.status) rec.members,
      free_index-ordered rec,
    )

    -- It is refused as by the store in memory, or it writes the member's row and counts the join,
    -- and answers as the store in memory does.
    pub join_new-Both :
        IsStore s
        → IsTimed now
        → session_at s sid ≡ some rec
        → Both
            (λ (a : JoinOutcome × Tables) (b : JoinOutcome).
              IsSame a.0 b × Agrees c v a.1 (put_session sid b.session s))
            (join_new c env sid req now (ordered rec) t)
            (admit env req now rec)
    unfolding new_member admitted
    join_new-Both w d e =
        let related = λ (a : JoinOutcome × Tables) (b : JoinOutcome).
          IsSame a.0 b × Agrees c v a.1 (put_session sid b.session s) in
        let sql = join_new c env sid req now (ordered rec) t in
        let m = entry env req now rec in
        let own = (w.sessions sid rec e).1 in
        let inv = (w.sessions sid rec e).0.members in
        elim (Result-cases (admit env req now rec)) [
          | inr (x, h) ↦ Both-err related sql (admit env req now rec) x (join_new-err x h) h
          | inl (out, h) ↦
              let a = admit_ok env req now rec out h in
              let free = (free_index-FreeFrom rec).free a.3 in
              let ins =
                insert_member_lem rec m e
                  (any-find-none (has_id m.id) rec.members (new_member_id-fresh env rec)) free in
              let held : IsHeld sid m = record {
                here = own;
                narrow = ((free_index-FreeFrom rec).range a.3).1;
                joined = d;
                seen = d;
                left = inl refl;
              } in
              let rec1 : SessionRecord = record rec { members = rec.members ++ m ∷ [] } in
              let dated = (Holds-some c v t s g sid rec e).2 in
              let g2 =
                row-Agrees c v (with_row m) (put_session sid rec1 s) (append-Agrees rec m e held)
                  sid (put_session sid (joined m rec) s) rec1 (joined m rec)
                  (count_join (first rec) m.id)
                  (lookup-insert_self String_discrete sid rec1 s.by_id)
                  (unfold session_row in
                    count_join-session_row (first rec) m.id rec1 (rec.members ++ m ∷ []))
                  refl (record { created = dated.created; expires = dated.expires })
                  (sym (insert-insert String_discrete sid (joined m rec) rec1 s.by_id)) in
              Both-ok related sql (admit env req now rec)
                (
                  outcome m (ordered rec),
                  set_session sid (count_join (first rec) m.id) (with_row m),
                )
                (outcome m rec)
                (join_new-ok m out h (entrant-ordered env sid req now rec inv own) ins)
                (h ∙ ap ok a.4)
                (
                  record {
                    session =
                        ap (λ ns. record (joined m rec) { members = ns })
                          (by_index-append rec.members m inv.indices_differ
                            (unused_differs m.index rec.members free));
                    member = refl;
                    rejoined = refl;
                    is_owner = refl;
                  },
                  g2,
                )
        ]
