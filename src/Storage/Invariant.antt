-- ===== src/Storage/Invariant.antt =====
-- The invariant of a session record, under `Join` and each write to a member.
pub mod Stored
pub mod Writes
pub mod Codes
pub mod Rotation
pub mod History
use p2p_server.Base.{
  ℕ, zero, suc, ◌+◌, ◌≤◌, ◌<◌, ◌≡◌, refl, ◌≢◌, ◌⊎◌, inl, inr, ap, sym, ◌∙◌, String, Bool, true,
  false, not, ◌&&◌, List, [], ◌∷◌, ◌++◌, Option, none, some, map, Result, ok, err, ◌>>=◌, arith,
  same, All, All-append, Option-cases, Bool-cases, ltb, leb, ◌==◌,
}
use mathlib.Core.List.{map-append}
use mathlib.Core.Path.{subst}
use p2p_server.Base.Search.{find, modify, remove_first, any}
use p2p_server.Base.Distinct.{
  Distinct, Distinct-snoc, map-modify, Distinct-remove_first, All-remove_first, All-find-none,
}
use p2p_server.Storage.{
  Env, StoreError, MemberRecord, SessionRecord, JoinRequest, JoinOutcome, has_id, has_node_id,
  member_by_id, member_by_node_id, active_members, free_index, is_used,
}
use p2p_server.Storage.Ids.{new_member_id}
use p2p_server.Storage.Ids.Fresh.{new_member_id-fresh}
use p2p_server.Storage.Index.{FreeFrom, free_index-FreeFrom}
use p2p_server.Storage.Admission.{
  revive, rejoin, new_member, must_wait, admitted, admit, join_session,
}

abbrev pub ids : List MemberRecord → List String
ids = map (λ m. m.id)

abbrev pub node_ids : List MemberRecord → List String
node_ids = map (λ m. m.node_id)

abbrev pub indices : List MemberRecord → List ℕ
indices = map (λ m. m.index)

-- A 16-bit index that is not the server's.
abbrev pub IsIndex : ℕ → Type 0
IsIndex i = (1 ≤ i) × (i < 65536)

-- No two members share an ID, a node or an index.
pub record AreMembers (ms : List MemberRecord) : Type 0 where
  pub ids_differ : Distinct (ids ms)
  pub nodes_differ : Distinct (node_ids ms)
  pub indices_differ : Distinct (indices ms)
  pub indices_fit : All IsIndex (indices ms)

pub record IsSession (s : SessionRecord) : Type 0 where
  pub members : AreMembers s.members
  pub joins : (s.join_limit ≡ 0) ⊎ (s.joins_used ≤ s.join_limit)

-- A write to the member found that leaves its ID, node and index.
pub modify-AreMembers :
    (p : MemberRecord → Bool) (f : MemberRecord → MemberRecord) (ms : List MemberRecord)
    (c : MemberRecord)
    → find p ms ≡ some c
    → (f c).id ≡ c.id
    → (f c).node_id ≡ c.node_id
    → (f c).index ≡ c.index
    → AreMembers ms
    → AreMembers (modify p f ms)
modify-AreMembers p f ms c e hi hn hx v = record {
  ids_differ = subst Distinct (sym (map-modify p (λ m. m.id) f ms c e hi)) v.ids_differ;
  nodes_differ = subst Distinct (sym (map-modify p (λ m. m.node_id) f ms c e hn)) v.nodes_differ;
  indices_differ = subst Distinct (sym (map-modify p (λ m. m.index) f ms c e hx)) v.indices_differ;
  indices_fit = subst (All IsIndex) (sym (map-modify p (λ m. m.index) f ms c e hx)) v.indices_fit;
}

pub remove_first-AreMembers :
    (p : MemberRecord → Bool) (ms : List MemberRecord)
    → AreMembers ms
    → AreMembers (remove_first p ms)
remove_first-AreMembers p ms v = record {
  ids_differ = Distinct-remove_first p (λ m. m.id) ms v.ids_differ;
  nodes_differ = Distinct-remove_first p (λ m. m.node_id) ms v.nodes_differ;
  indices_differ = Distinct-remove_first p (λ m. m.index) ms v.indices_differ;
  indices_fit = All-remove_first p (λ m. m.index) IsIndex ms v.indices_fit;
}

pub unused_differs :
    (i : ℕ) (ms : List MemberRecord) → is_used ms i ≡ false → All (λ j. j ≢ i) (indices ms)
unfolding any
unused_differs i [] h = tt
unused_differs i (m ∷ ms) h = (ground arith, unused_differs i ms (ground arith))

-- A new member with an ID, a node and an index that nobody has.
pub snoc-AreMembers :
    (ms : List MemberRecord) (m : MemberRecord)
    → All (λ j. j ≢ m.id) (ids ms)
    → All (λ j. j ≢ m.node_id) (node_ids ms)
    → All (λ j. j ≢ m.index) (indices ms)
    → IsIndex m.index
    → AreMembers ms
    → AreMembers (ms ++ m ∷ [])
snoc-AreMembers ms m hi hn hx r v = record {
  ids_differ = rw (map-append _ ms (m ∷ [])) (Distinct-snoc (ids ms) m.id v.ids_differ hi);
  nodes_differ =
      rw (map-append _ ms (m ∷ [])) (Distinct-snoc (node_ids ms) m.node_id v.nodes_differ hn);
  indices_differ =
      rw (map-append _ ms (m ∷ [])) (Distinct-snoc (indices ms) m.index v.indices_differ hx);
  indices_fit =
      rw (map-append _ ms (m ∷ []))
        (All-append IsIndex (indices ms) (m.index ∷ []) v.indices_fit (r, tt));
}

-- What it took to be let in.
pub admit_ok :
    (env : Env) (req : JoinRequest) (now : ℕ) (rec : SessionRecord) (out : JoinOutcome)
    → admit env req now rec ≡ ok out
    → (rec.revoked ≡ false)
      × ((rec.join_limit ≡ 0) ⊎ (rec.joins_used < rec.join_limit))
      × ((must_wait rec ≡ true) ⊎ ((rec.max_members ≡ 0) ⊎ (active_members rec < rec.max_members)))
      × (free_index rec ≢ 0)
      × (out ≡ admitted env req now rec)
unfolding admit
admit_ok env req now rec out e = ground arith

pub admitted-IsSession :
    (env : Env) (req : JoinRequest) (now : ℕ) (rec : SessionRecord)
    → member_by_node_id rec req.node_id ≡ none
    → (rec.join_limit ≡ 0) ⊎ (rec.joins_used < rec.join_limit)
    → free_index rec ≢ 0
    → IsSession rec
    → IsSession (admitted env req now rec).session
unfolding admitted new_member
admitted-IsSession env req now rec new room free v = record {
  members =
      snoc-AreMembers rec.members (new_member env req now rec (must_wait rec))
        (All-find-none _ _ (new_member_id env rec) (λ m e. ground arith) rec.members
          (new_member_id-fresh env rec))
        (All-find-none _ _ req.node_id (λ m e. ground arith) rec.members new)
        (unused_differs (free_index rec) rec.members ((free_index-FreeFrom rec).free free))
        ((free_index-FreeFrom rec).range free) v.members;
  joins = ground arith;
}

pub rejoin-IsSession :
    (req : JoinRequest) (now : ℕ) (rec : SessionRecord) (existing : MemberRecord)
    → member_by_node_id rec req.node_id ≡ some existing
    → IsSession rec
    → IsSession (rejoin req now rec existing).session
unfolding rejoin revive
rejoin-IsSession req now rec existing e v = record {
  members = modify-AreMembers _ _ rec.members existing e refl refl refl v.members;
  joins = v.joins;
}

-- What `Join` does for a node that is a member.
pub rejoin_ok :
    (env : Env) (req : JoinRequest) (now : ℕ) (rec : SessionRecord) (out : JoinOutcome)
    (m : MemberRecord)
    → member_by_node_id rec req.node_id ≡ some m
    → join_session env req now rec ≡ ok out
    → rejoin req now rec m ≡ out
unfolding join_session
rejoin_ok env req now rec out m old e = ground (arith, old, e)

-- A successful join leaves no two members of the session with one ID, node or index, every index
-- in 1 to 65535, and the join limit kept, if that was so before.
pub join_session-IsSession :
    (env : Env) (req : JoinRequest) (now : ℕ) (rec : SessionRecord) (out : JoinOutcome)
    → join_session env req now rec ≡ ok out
    → IsSession rec
    → IsSession out.session
unfolding join_session
join_session-IsSession env req now rec out e v =
    elim (Option-cases (member_by_node_id rec req.node_id)) [
      | inl new ↦
          let a = admit_ok env req now rec out (rw (new, join_session) at e) in
          subst (λ (o : JoinOutcome). IsSession o.session) (sym a.4)
            (admitted-IsSession env req now rec new a.1 a.3 v)
      | inr (m, old) ↦
          subst (λ (o : JoinOutcome). IsSession o.session) (rejoin_ok env req now rec out m old e)
            (rejoin-IsSession req now rec m old v)
    ]
