-- ===== src/Scenarios/Services.antt =====
-- Examples of the service's theorems, over the store in memory.
use p2p_server.Base.{
  ◌<◌, ◌≤◌, ◌+◌, ◌+◌, ◌≡◌, refl, inl, ◌↔◌, true, false, none, some, [], ◌∷◌, ok, err, arith,
  String_discrete,
}
use p2p_server.Base.Dict.{lookup, insert}
use p2p_server.Base.Search.{find, count, keep, modify, any}
use p2p_server.Base.Bytes.{replicate}
use p2p_server.Base.Texts.{trim_space, to_upper, remove_char, hex}
use p2p_server.Protocol.{Mode, MemberStatus, is_active, is_owner, is_pending}
use p2p_server.Storage.{
  MemberRecord, SessionRecord, is_expired, is_online, active_members, member_by_id, free_index,
  free_index_from,
}
use p2p_server.Storage.Capacity.{IsWithin}
use p2p_server.Storage.Invariant.Stored.{IsStore, session_at, code_at}
use p2p_server.Storage.Memory.{
  new_memory, MemoryStore, memory, list, remove_member, normalize_code, get, get_by_join_code,
  update_member, put_session,
}
use p2p_server.Session.{max_ttl, Service, ServiceError, unauthorized, max_duration}
use p2p_server.Session.Approval.{approve-IsWithin, is_active_member-reject}
use p2p_server.Session.Authorization.{IsAuthorized, join-IsAuthorized, member_index_for_iff}
use p2p_server.Session.Change.{approve, reject}
use p2p_server.Session.Create.{CreateParams, CreateResult, new_session, parse_mode, member_limit}
use p2p_server.Session.Limits.{create_ok}
use p2p_server.Base.Int.{pos}
use p2p_server.Session.Idle.{is_idle-earliest}
use p2p_server.Session.Join.{JoinParams, locate, authorize, join}
use p2p_server.Session.Prune.{
  PruneResult, prune, prune_session, is_over, is_idle, is_gone, all_idle, idle_from,
}
use p2p_server.Session.Query.{is_active_member, member_index_for}
use p2p_server.Session.Pass.{prune-swept, swept}
use p2p_server.Session.Sweep.{prune_session-keep, prune_session-delete, stays}
use p2p_server.Scenarios.{quiet, alice, bob, group, group_of, stored, lenient, service}
use p2p_server.Scenarios.Stores.{stored-IsStore, coded}

-- Bob as the owner's approval leaves him, and the session around him.
abbrev welcome : MemberRecord
welcome = record bob { status = MemberStatus.active; joined_at = 6 }

abbrev widened : MemoryStore
widened = put_session "sess_1" (group_of (alice ∷ welcome ∷ [])) stored

approve-IsWithin_example :
    (rec : SessionRecord) × (rec' : SessionRecord) × (boss : MemberRecord) × (old : MemberRecord)
    × (session_at stored "sess_1" ≡ some rec)
    × (member_by_id rec "mbr_1" ≡ some boss)
    × (is_owner boss.role ≡ true)
    × (member_by_id rec "mbr_2" ≡ some old)
    × (is_pending old.status ≡ true)
    × (welcome ≡ record old { status = MemberStatus.active; joined_at = 6 })
    × (session_at widened "sess_1" ≡ some rec')
    × (active_members rec' ≡ active_members rec + 1)
    × IsWithin rec'
unfolding approve get update_member lookup insert find modify any count String_discrete
approve-IsWithin_example =
    approve-IsWithin quiet service "sess_1" "mbr_1" "mbr_2" stored widened welcome refl

abbrev narrowed : MemoryStore
narrowed =
    put_session "sess_1"
      (group_of (alice ∷ record bob { status = MemberStatus.denied; connection_id = "" } ∷ []))
      stored

is_active_member-reject_example :
    is_active_member memory quiet service "sess_1" "mbr_2" narrowed ≡ false
unfolding reject get update_member lookup insert find modify any String_discrete
is_active_member-reject_example =
    is_active_member-reject quiet quiet service "sess_1" "mbr_1" "mbr_2" stored narrowed refl

-- A node with the code of the session, and one with another code.
abbrev caller : JoinParams
caller = record {
  session_id = "";
  join_code = "P2P-ab-cd";
  token = "";
  node_id = "010203";
  public_key = replicate 32 0;
  nonce = [];
  signature = [];
  connection_id = "conn_3";
  capabilities = [];
  candidates = [];
}

join-IsAuthorized_example :
    (rec : SessionRecord) × (locate lenient memory quiet caller stored ≡ ok rec)
    × IsAuthorized lenient service caller rec
unfolding join locate authorize String_discrete get_by_join_code lookup normalize_code remove_char
    to_upper trim_space is_expired p2p_server.Auth.Token.decode_token p2p_server.Auth.Token.hash hex
    p2p_server.Auth.Identity.verify_join_proof p2p_server.Auth.Identity.node_id_from_public
    p2p_server.Storage.Memory.join p2p_server.Storage.Admission.join_session find
    p2p_server.Storage.Admission.admit free_index free_index_from any count
    p2p_server.Session.map_store_err
join-IsAuthorized_example = join-IsAuthorized lenient memory quiet service caller stored _ _ refl

member_index_for_iff_example :
    (member_index_for memory quiet service "sess_1" "mbr_1" stored ≡ some 1) ↔ (
      (rec : SessionRecord) × (m : MemberRecord) × (get
          (record quiet { ctx_err = none })
          "sess_1"
          stored
        ≡ ok rec)
      × (is_expired rec 6 ≡ false)
      × (rec.closed ≡ false)
      × (member_by_id rec "mbr_1" ≡ some m)
      × (is_active m.status ≡ true)
      × (m.index ≡ 1))
member_index_for_iff_example = member_index_for_iff memory quiet service "sess_1" "mbr_1" stored 1

-- A service that waits for two only.
abbrev impatient : Service
impatient = record service {
  config = record { ticket_ttl = 600; member_grace = 2; default_ttl = 1800; max_sessions = 0 };
}

prune-swept_example :
    (out : PruneResult × MemoryStore) × (prune memory quiet impatient stored ≡ ok out)
    × IsStore out.1
    × (session_at out.1 "sess_1" ≡ swept impatient (some group))
unfolding lookup String_discrete
prune-swept_example = prune-swept quiet impatient stored "sess_1" refl stored-IsStore (tt, tt)

abbrev nothing : PruneResult
nothing = record { sessions_expired = 0; members_expired = 0 }

prune_session-keep_example :
    let out = prune_session memory quiet impatient group stored nothing in
    (session_at out.0 "sess_1"
      ≡ some (record group { members = keep (stays impatient) (alice ∷ bob ∷ []) }))
    × (out.1.members_expired ≡ 0 + count (is_gone 6 2) (alice ∷ bob ∷ []))
    × (out.1.sessions_expired ≡ 0)
unfolding lookup is_over is_expired is_idle all_idle idle_from is_online String_discrete
prune_session-keep_example =
    prune_session-keep quiet impatient group stored nothing refl stored-IsStore refl refl refl

abbrev shut : SessionRecord
shut = record group { closed = true }

prune_session-delete_example :
    let out = prune_session memory quiet service shut (put_session "sess_1" shut stored) nothing in
    (session_at out.0 "sess_1" ≡ none)
    × (code_at out.0 (normalize_code "P2P-ab-cd") ≡ none)
    × (out.1 ≡ record { sessions_expired = 1; members_expired = 0 })
unfolding lookup insert is_over is_expired String_discrete
prune_session-delete_example =
    prune_session-delete quiet service shut (put_session "sess_1" shut stored) nothing refl refl
      (inl refl) coded

-- Alice left at 2 and Bob at 19; at 20 the timeout of 10 counts from Alice.
abbrev left_early : MemberRecord
left_early = record alice { connection_id = ""; leave_at = 2 }

abbrev left_just_now : MemberRecord
left_just_now = record bob { status = MemberStatus.active; leave_at = 19 }

is_idle-earliest_example : is_idle 20 (group_of (left_early ∷ left_just_now ∷ [])) ≡ true
unfolding is_online String_discrete
is_idle-earliest_example =
    is_idle-earliest 20 (group_of (left_early ∷ left_just_now ∷ [])) [] (left_just_now ∷ [])
      left_early refl
      ((λ _. (refl, λ e. absurd (omega arith))), ((λ _. (refl, λ e. absurd (omega arith))), tt))
      refl (omega arith) (omega arith) (omega arith)

-- A pair with the default lifetime.
abbrev wish : CreateParams
wish = record {
  mode = "Pair";
  max_members = pos 7;
  join_limit = pos 0;
  ttl = pos 0;
  require_approval = false;
  idle_timeout = 0;
}

abbrev pair_of_two : SessionRecord
pair_of_two = new_session lenient quiet service wish Mode.pair 2 1800 (replicate 32 7)

abbrev granted : CreateResult
granted = record {
  session = pair_of_two;
  token = replicate 32 7;
  join_code = pair_of_two.join_code;
  session_id = pair_of_two.id;
  expires_at = pair_of_two.expires_at;
}

abbrev with_pair : MemoryStore
with_pair = record {
  by_id = (pair_of_two.id, pair_of_two) ∷ [];
  by_code = (normalize_code pair_of_two.join_code, pair_of_two.id) ∷ [];
}

create_ok_example :
    (session_at with_pair granted.session_id ≡ some pair_of_two)
    × (pair_of_two.members ≡ [])
    × (0 < pair_of_two.max_members)
    × (pair_of_two.max_members ≤ 1000)
    × (6 < granted.expires_at)
    × (granted.expires_at ≤ 6 + max_ttl)
unfolding new_session p2p_server.Session.Create.create parse_mode member_limit new_memory lookup
    insert String_discrete p2p_server.Base.Texts.to_lower trim_space
    p2p_server.Auth.Token.new_join_token p2p_server.Storage.Memory.create
    p2p_server.Storage.Memory.register_code p2p_server.Auth.Token.encode_join_code
    p2p_server.Base.Texts.append
create_ok_example =
    create_ok lenient quiet service wish new_memory with_pair granted (omega arith) refl
