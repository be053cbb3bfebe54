-- ===== src/Storage/Sqlite/Rejoin.antt =====
-- The branch of `Join` for a node that is a member, in the tables and in memory.
use p2p_server.Base.{ℕ, ◌≡◌, refl, ap, inl, String, true, some, ok, arith, same}
use p2p_server.Base.Keyed.{IsTest, update_where-modify, find-key}
use p2p_server.Base.Search.{modify}
use p2p_server.Storage.{
  MemberRecord, SessionRecord, JoinRequest, JoinOutcome, has_id, has_node_id, member_by_node_id,
}
use p2p_server.Storage.Admission.{revive, rejoin}
use p2p_server.Storage.Invariant.Stored.{session_at, IsStore}
use p2p_server.Storage.Memory.{MemoryStore, put_session}
use p2p_server.Storage.Sqlite.{Tables, Json, IsJson}
use p2p_server.Storage.Sqlite.Agree.{Agrees, Holds-some}
use p2p_server.Storage.Sqlite.Canonical.{by_index-modify, Distinct-by_index}
use p2p_server.Storage.Sqlite.Columns.{IsHeld, IsTimed}
use p2p_server.Storage.Sqlite.Entry.{join_again}
use p2p_server.Storage.Sqlite.Members.{id-IsTest, All-modify, update_member_row-Agrees}
use p2p_server.Storage.Sqlite.Order.{by_index, ordered}

-- The same outcome, up to the order of the session's members.
pub record IsSame (a b : JoinOutcome) : Type 0 where
  pub session : ordered a.session ≡ ordered b.session
  pub member : a.member ≡ b.member
  pub rejoined : a.rejoined ≡ b.rejoined
  pub is_owner : a.is_owner ≡ b.is_owner

node-IsTest : (node : String) → IsTest (λ (m : MemberRecord). m.node_id) node (has_node_id node)
node-IsTest node = record { sound = λ x e. ground arith; complete = λ x e. ground arith }

revive-IsHeld :
    (rec : SessionRecord) (req : JoinRequest) (now : ℕ) (sid : String) (m : MemberRecord)
    → IsTimed now
    → IsHeld sid m
    → IsHeld sid (revive rec req now m)
unfolding revive
revive-IsHeld rec req now sid m d h = record {
  here = h.here;
  narrow = h.narrow;
  joined = h.joined;
  seen = d;
  left = inl refl;
}

module _ (c : Json) (v : IsJson c) (t : Tables) (s : MemoryStore) (g : Agrees c v t s)
    (sid : String) where
  -- It writes the member's row, and answers as the store in memory does.
  pub join_again-Agrees :
      (req : JoinRequest) (now : ℕ) (rec : SessionRecord) (m : MemberRecord)
      → IsStore s
      → IsTimed now
      → session_at s sid ≡ some rec
      → member_by_node_id rec req.node_id ≡ some m
      → (out : JoinOutcome) × (t' : Tables) × (join_again c sid req now (ordered rec) m t
          ≡ ok (out, t'))
        × IsSame out (rejoin req now rec m)
        × Agrees c v t' (put_session sid (rejoin req now rec m).session s)
  unfolding join_again rejoin revive
  join_again-Agrees req now rec m w d e f =
      let members = (w.sessions sid rec e).0.members in
      let ms = modify (has_node_id req.node_id) (revive rec req now) rec.members in
      let by_id =
        find-key (λ x. x.id) (has_id m.id) m.id (id-IsTest m.id) (has_node_id req.node_id)
          rec.members m members.ids_differ f refl in
      let written =
        update_where-modify (λ x. x.id) (has_id m.id) m.id (id-IsTest m.id)
          (has_node_id req.node_id) (revive rec req now) rec.members m members.ids_differ f refl in
      let u =
        update_member_row-Agrees c v t s g sid rec (revive rec req now m) m ms w e by_id refl
          written
          (All-modify (IsHeld sid) (has_node_id req.node_id) (revive rec req now) rec.members
            (λ x. revive-IsHeld rec req now sid x d) (Holds-some c v t s g sid rec e).3) in
      (
        record {
          session = record rec {
            members = modify (has_node_id req.node_id) (revive rec req now) (by_index rec.members);
          };
          member = revive rec req now m;
          rejoined = true;
          is_owner = same rec.owner_member_id m.id;
        },
        u.0,
        rw u.1 refl,
        record {
          session =
              ap (λ ns. record rec { members = ns })
                (by_index-modify (has_node_id req.node_id) (revive rec req now) (λ x. refl)
                  (λ x. x.node_id) req.node_id (node-IsTest req.node_id) rec.members
                  members.nodes_differ
                  (Distinct-by_index (λ x. x.node_id) rec.members members.nodes_differ)
                  members.indices_differ);
          member = refl;
          rejoined = refl;
          is_owner = refl;
        },
        u.2,
      )
