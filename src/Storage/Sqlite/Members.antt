-- ===== src/Storage/Sqlite/Members.antt =====
-- The member rows of a session and its members in memory: searches and writes in both.
use p2p_server.Base.{
  ℕ, ◌≡◌, refl, sym, ◌∙◌, ap, ◌≢◌, inl, inr, String, Bool, true, false, not, ◌&&◌, List, [], ◌∷◌,
  map, none, some, ok, err, arith, same, same_refl, String_discrete, All, Bool-cases, ◌==◌,
  if◌then◌else◌,
}
use mathlib.Core.Path.{subst}
use p2p_server.Base.Dict.{lookup-insert_self, lookup-insert_ne}
use p2p_server.Base.Distinct.{Distinct}
use p2p_server.Base.Keyed.{IsTest, All-find}
use p2p_server.Base.Search.{find, modify, any, keep}
use p2p_server.Base.Table.{
  update_where, keep-update_where_in, keep-update_where_out, any-keep, any-map, any-find-some,
  any-find-none, update_where-map,
}
use p2p_server.Storage.{member_missing, MemberRecord, SessionRecord, has_id, member_by_id}
use p2p_server.Storage.Invariant.{indices}
use p2p_server.Storage.Invariant.Stored.{session_at, IsStore}
use p2p_server.Storage.Memory.{MemoryStore, is_taken, put_session}
use p2p_server.Storage.Sqlite.{MemberRow, Tables, Json, IsJson}
use p2p_server.Storage.Sqlite.Agree.{Agrees, write-Agrees, Holds-some}
use p2p_server.Storage.Sqlite.Columns.{member_row, IsHeld, encode_member_lem}
use p2p_server.Storage.Sqlite.Rows.{
  of_session, is_member, has_clash, update_member_row, assign_row, session_row,
}

pub is_member-of_session :
    (sid mid : String) (r : MemberRow) → is_member sid mid r ≡ true → of_session sid r ≡ true
is_member-of_session sid mid r e = ground arith

pub is_member_elsewhere :
    (sid mid j : String) (r : MemberRow)
    → sid ≢ j
    → is_member sid mid r ≡ true
    → of_session j r ≡ false
is_member_elsewhere sid mid j r n e = ground arith

pub id-IsTest : (mid : String) → IsTest (λ (m : MemberRecord). m.id) mid (has_id mid)
id-IsTest mid = record { sound = λ x e. ground arith; complete = λ x e. ground arith }

-- No other member has the index of the one found.
no_clash :
    (mid : String) (ms : List MemberRecord) (c0 : MemberRecord)
    → Distinct (indices ms)
    → find (has_id mid) ms ≡ some c0
    → any (λ x. x.index == c0.index && not (same x.id mid)) ms ≡ false
unfolding find any
no_clash mid [] c0 d e = refl
no_clash mid (x ∷ ms) c0 d e = elim (Bool-cases (has_id mid x)) [
  | inl h ↦
      let same_one : x ≡ c0 = ground (arith, e, h) in
      ground (arith, h, same_one, none_at x.index ms d.0)
  | inr h ↦
      let later : find (has_id mid) ms ≡ some c0 = ground (arith, e, h) in
      let n : c0.index ≢ x.index =
        All-find (λ y. y.index) (λ i. i ≢ x.index) (has_id mid) ms c0 d.0 later in
      ground (arith, n, no_clash mid ms c0 d.1 later)
]
  where
    none_at :
        (i : ℕ) (ns : List MemberRecord)
        → All (λ j. j ≢ i) (indices ns)
        → any (λ y. y.index == i && not (same y.id mid)) ns ≡ false
    none_at i [] h = refl
    none_at i (y ∷ ns) h = ground (arith, h.0, none_at i ns h.1)

pub All-modify :
    (P : MemberRecord → Type 0) (p : MemberRecord → Bool) (f : MemberRecord → MemberRecord)
    (ms : List MemberRecord)
    → ((m : MemberRecord) → P m → P (f m))
    → All P ms
    → All P (modify p f ms)
unfolding modify
All-modify P p f [] k h = tt
All-modify P p f (m ∷ ms) k h =
    elim (p m) as (λ b. All P (if b then f m ∷ ms else m ∷ modify p f ms)) [
      | true ↦ (k m h.0, h.1)
      | false ↦ (h.0, All-modify P p f ms k h.1)
    ]

module _ (c : Json) (v : IsJson c) (t : Tables) (s : MemoryStore) (g : Agrees c v t s)
    (sid : String) where
  pub is_member-member_row :
      (mid : String) (m : MemberRecord) → is_member sid mid (member_row c v sid m) ≡ has_id mid m
  unfolding member_row
  is_member-member_row mid m = ground (arith, same_refl sid)

  -- The search for a member's row, on the members in memory.
  pub any-is_member :
      (mid : String) (rec : SessionRecord)
      → session_at s sid ≡ some rec
      → any (is_member sid mid) t.members ≡ any (has_id mid) rec.members
  any-is_member mid rec e =
      sym (any-keep (of_session sid) (is_member sid mid) t.members (is_member-of_session sid mid))
      ∙ (ap (any (is_member sid mid)) (Holds-some c v t s g sid rec e).1
          ∙ any-map (member_row c v sid) (is_member sid mid) (has_id mid) rec.members
              (is_member-member_row mid))

  no_clash_rows :
      (rec : SessionRecord) (c0 : MemberRecord) (mid : String)
      → Distinct (indices rec.members)
      → session_at s sid ≡ some rec
      → member_by_id rec mid ≡ some c0
      → any (has_clash sid mid c0.index) t.members ≡ false
  unfolding member_row
  no_clash_rows rec c0 mid d e f =
      sym (any-keep (of_session sid) (has_clash sid mid c0.index) t.members (λ r h. ground arith))
      ∙ (ap (any (has_clash sid mid c0.index)) (Holds-some c v t s g sid rec e).1
          ∙ (any-map (member_row c v sid) (has_clash sid mid c0.index)
                (λ x. x.index == c0.index && not (same x.id mid)) rec.members
                (λ x. ground (arith, same_refl sid))
              ∙ no_clash mid rec.members c0 d f))

  -- Rows of the session written, where the store in memory writes its members.
  pub members-Agrees :
      (rec : SessionRecord) (rows : List MemberRow) (ms : List MemberRecord)
      → session_at s sid ≡ some rec
      → keep (of_session sid) rows ≡ map (member_row c v sid) ms
      → ((j : String) → sid ≢ j → keep (of_session j) rows ≡ keep (of_session j) t.members)
      → All (IsHeld sid) ms
      → Agrees c v (record t { members = rows }) (put_session sid (record rec { members = ms }) s)
  unfolding session_row
  members-Agrees rec rows ms e here there held =
      let (row, _, dated, _) = Holds-some c v t s g sid rec e in
      let new : SessionRecord = record rec { members = ms } in
      write-Agrees c v t (record t { members = rows }) s (put_session sid new s) sid g
        (λ j n. (refl, there j n, lookup-insert_ne String_discrete sid j new s.by_id n))
        (rw (lookup-insert_self String_discrete sid new s.by_id)
          (row, here, record { created = dated.created; expires = dated.expires }, held))
        g.once

  -- One member's row written, where the store in memory writes the member.
  pub update-Agrees :
      (rec : SessionRecord) (mid : String) (f : MemberRecord → MemberRecord)
      (k : MemberRow → MemberRow) (ms : List MemberRecord)
      → session_at s sid ≡ some rec
      → ((m : MemberRecord)
          → has_id mid m ≡ true
          → k (member_row c v sid m) ≡ member_row c v sid (f m))
      → ((r : MemberRow) → (k r).session_id ≡ r.session_id)
      → update_where (has_id mid) f rec.members ≡ ms
      → All (IsHeld sid) ms
      → Agrees c v
          (record t { members = update_where (is_member sid mid) k t.members })
          (put_session sid (record rec { members = ms }) s)
  update-Agrees rec mid f k ms e same_row stays there held =
      members-Agrees rec (update_where (is_member sid mid) k t.members) ms e
        (keep-update_where_in (of_session sid) (is_member sid mid) k t.members
            (is_member-of_session sid mid) (λ r h. let q = stays r in ground (arith, q, h))
          ∙ (ap (update_where (is_member sid mid) k) (Holds-some c v t s g sid rec e).1
              ∙ (update_where-map (member_row c v sid) (is_member sid mid) k (has_id mid) f
                    rec.members (is_member-member_row mid) same_row
                  ∙ ap (map (member_row c v sid)) there)))
        (λ j n.
          keep-update_where_out (of_session j) (is_member sid mid) k t.members
            (λ r h. is_member_elsewhere sid mid j r n h)
            (λ r h. let q = stays r in ground (arith, q, h, n)))
        held

  assign_row-member_row :
      (m x : MemberRecord)
      → has_id m.id x ≡ true
      → assign_row (member_row c v sid m) (member_row c v sid x) ≡ member_row c v sid m
  unfolding member_row
  assign_row-member_row m x h = let q : x.id ≡ m.id = ground arith in rw q refl

  pub is_here : (rec : SessionRecord) → session_at s sid ≡ some rec → is_taken sid t.sessions ≡ true
  is_here rec e = let k = (Holds-some c v t s g sid rec e).0 in ground (arith, k)

  pub update_member_row-none :
      (rec : SessionRecord) (m : MemberRecord)
      → session_at s sid ≡ some rec
      → member_by_id rec m.id ≡ none
      → (is_taken sid t.sessions ≡ true) × (update_member_row c sid m t ≡ err member_missing)
  unfolding update_member_row
  update_member_row-none rec m e f =
      let none_there = any-is_member m.id rec e ∙ any-find-none (has_id m.id) rec.members f in
      let enc = encode_member_lem c v sid m in
      let here = is_here rec e in (here, ground (arith, none_there, here, enc))

  -- `updateMemberRow` of a member that is there, under its own index.
  pub update_member_row-Agrees :
      (rec : SessionRecord) (m : MemberRecord) (c0 : MemberRecord) (ms : List MemberRecord)
      → IsStore s
      → session_at s sid ≡ some rec
      → member_by_id rec m.id ≡ some c0
      → m.index ≡ c0.index
      → update_where (has_id m.id) (λ _. m) rec.members ≡ ms
      → All (IsHeld sid) ms
      → (t' : Tables) × (update_member_row c sid m t ≡ ok t')
        × Agrees c v t' (put_session sid (record rec { members = ms }) s)
  unfolding update_member_row
  update_member_row-Agrees rec m c0 ms w e f place there held =
      let there_is : any (is_member sid m.id) t.members ≡ true =
        any-is_member m.id rec e ∙ any-find-some (has_id m.id) rec.members c0 f in
      let free : any (has_clash sid m.id m.index) t.members ≡ false =
        subst (λ i. any (has_clash sid m.id i) t.members ≡ false) (sym place)
          (no_clash_rows rec c0 m.id (w.sessions sid rec e).0.members.indices_differ e f) in
      let enc = encode_member_lem c v sid m in
      (
        record t {
          members = update_where (is_member sid m.id) (assign_row (member_row c v sid m)) t.members;
        },
        ground (arith, there_is, free, enc),
        update-Agrees rec m.id (λ _. m) (assign_row (member_row c v sid m)) ms e
            (assign_row-member_row m) (λ r. refl) there held,
      )
