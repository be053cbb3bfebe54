-- ===== src/Storage/Admission.antt =====
-- internal/storage/memory.go: `Join` on the session that it finds, in its two branches.
use p2p_server.Base.{
  ℕ, ◌+◌, Bool, true, false, not, ◌&&◌, none, some, List, [], ◌∷◌, ◌++◌, Result, ok, ◌>>◌,
  reject_if, ltb, leb, ◌==◌, same, if◌then◌else◌,
}
use p2p_server.Base.Search.{modify}
use p2p_server.Protocol.{MemberStatus, Role}
use p2p_server.Storage.{
  Env, StoreError, revoked, full, join_limit, MemberRecord, SessionRecord, active_members,
  has_node_id, member_by_node_id, free_index, JoinRequest, JoinOutcome,
}
use p2p_server.Storage.Ids.{new_member_id}

abbrev or_old {ℓ} : {A : Type ℓ} → List A → List A → List A
or_old [] old = old
or_old (x ∷ xs) old = x ∷ xs

abbrev entry_status : Bool → MemberStatus
entry_status true = MemberStatus.pending
entry_status false = MemberStatus.active

abbrev status_on_rejoin : SessionRecord → MemberStatus → MemberStatus
status_on_rejoin rec MemberStatus.active = MemberStatus.active
status_on_rejoin rec _ = entry_status rec.require_approval

-- The writes to the member that comes back.
unfoldable pub revive : SessionRecord → JoinRequest → ℕ → MemberRecord → MemberRecord
revive rec req now m = record m {
  connection_id = req.connection_id;
  last_seen = now;
  leave_at = 0;
  capabilities = or_old req.capabilities m.capabilities;
  candidates = or_old req.candidates m.candidates;
  status = status_on_rejoin rec m.status;
}

-- The branch of `Join` for a node that is a member.
unfoldable pub rejoin : JoinRequest → ℕ → SessionRecord → MemberRecord → JoinOutcome
rejoin req now rec existing =
    let rec' = record rec {
      members = modify (has_node_id req.node_id) (revive rec req now) rec.members;
    } in
    let m = revive rec req now existing in
    record {
      session = rec';
      member = m;
      rejoined = true;
      is_owner = same rec.owner_member_id existing.id;
    }

unfoldable pub new_member : Env → JoinRequest → ℕ → SessionRecord → Bool → MemberRecord
new_member env req now rec waits = record {
  id = new_member_id env rec;
  session_id = rec.id;
  index = free_index rec;
  node_id = req.node_id;
  public_key = req.public_key;
  role = if same rec.owner_member_id "" then Role.owner else Role.member;
  status = entry_status waits;
  capabilities = req.capabilities;
  candidates = req.candidates;
  connection_id = req.connection_id;
  joined_at = now;
  last_seen = now;
  leave_at = 0;
}

-- The first to join is the owner, whom the approval policy does not bind.
abbrev pub must_wait : SessionRecord → Bool
must_wait rec = rec.require_approval && not (same rec.owner_member_id "")

-- What `Join` writes and returns for a node that is let in.
unfoldable pub admitted : Env → JoinRequest → ℕ → SessionRecord → JoinOutcome
admitted env req now rec =
    let m = new_member env req now rec (must_wait rec) in
    let first = same rec.owner_member_id "" in
    record {
      session = record rec {
        owner_member_id = if first then m.id else rec.owner_member_id;
        members = rec.members ++ m ∷ [];
        joins_used = rec.joins_used + 1;
      };
      member = m;
      rejoined = false;
      is_owner = first;
    }

-- The branch of `Join` for a node that is new to the session.
unfoldable pub admit : Env → JoinRequest → ℕ → SessionRecord → Result StoreError JoinOutcome
admit env req now rec = do
  reject_if rec.revoked revoked
  reject_if (ltb 0 rec.join_limit && leb rec.join_limit rec.joins_used) join_limit
  reject_if
      (not (must_wait rec) && (ltb 0 rec.max_members && leb rec.max_members (active_members rec)))
      full
  reject_if (free_index rec == 0) full
  ok (admitted env req now rec)

unfoldable pub join_session : Env → JoinRequest → ℕ → SessionRecord → Result StoreError JoinOutcome
join_session env req now rec = elim (member_by_node_id rec req.node_id) [
  | some existing ↦ ok (rejoin req now rec existing)
  | none ↦ admit env req now rec
]
