-- ===== src/Scenarios/Stores.antt =====
-- Examples of the store's theorems.
use p2p_server.Base.{
  some, String, ◌≡◌, refl, ◌≢◌, inr, false, none, [], ◌∷◌, ok, err, arith, String_discrete,
}
use p2p_server.Base.Dict.{lookup, insert}
use p2p_server.Base.Search.{any, find, count}
use p2p_server.Base.Texts.{trim_space, to_upper, remove_char}
use p2p_server.Protocol.{MemberStatus}
use p2p_server.Storage.{
  SessionRecord, is_expired, active_members, member_by_id, free_index, free_index_from, revoked,
}
use p2p_server.Storage.Admission.{join_session, admit, admitted, rejoin, revive}
use p2p_server.Storage.Capacity.{IsWithin, join_session-IsWithin, rejoin-exceeds}
use p2p_server.Storage.Ids.{number_id, new_member_id}
use p2p_server.Storage.Ids.Fresh.{number_id-IsFree, new_member_id-fresh}
use p2p_server.Storage.Index.{FreeFrom, free_index-FreeFrom}
use p2p_server.Storage.Invariant.{IsSession, join_session-IsSession}
use p2p_server.Storage.Invariant.History.{
  creates, joins, rotates, step, Reachable, fresh, called, after, after_pair, Reachable-IsStore,
}
use p2p_server.Storage.Invariant.Stored.{IsStore}
use p2p_server.Storage.Lookup.{get_by_join_code-create, join-revoke}
use p2p_server.Storage.Memory.{
  MemoryStore, new_memory, normalize_code, create, get, get_by_join_code, rotate_token, revoke,
  join, register_code,
}
use p2p_server.Scenarios.{quiet, alice, bob, group, group_of, stored, carol, differ}

abbrev pub nobody_yet : SessionRecord
nobody_yet = record (group_of []) { joins_used = 0; owner_member_id = "" }

pub nobody_yet-IsSession : IsSession nobody_yet
nobody_yet-IsSession = record {
  members = record { ids_differ = tt; nodes_differ = tt; indices_differ = tt; indices_fit = tt };
  joins = inr (omega arith);
}

pub coded : group.join_code ≢ ""
unfolding String_discrete
coded = differ _ _ refl

pub keyed : normalize_code "P2P-ab-cd" ≢ ""
unfolding normalize_code trim_space to_upper remove_char String_discrete
keyed = differ _ _ refl

pub new_keyed : normalize_code "P2P-zz" ≢ ""
unfolding normalize_code trim_space to_upper remove_char String_discrete
new_keyed = differ _ _ refl

-- A session, its first member, and a new code.
abbrev history : Reachable (
    step quiet
      (rotates "sess_1" "99" "P2P-zz" 7)
      (step quiet (joins "sess_1" carol) (step quiet (creates nobody_yet) new_memory)))
history =
    called _ quiet (rotates "sess_1" "99" "P2P-zz" 7)
      (called _ quiet (joins "sess_1" carol)
        (called _ quiet (creates nobody_yet) (fresh new_memory refl)
          (nobody_yet-IsSession, inr (coded, keyed)) refl)
        tt refl)
      new_keyed refl

Reachable-IsStore_example : IsStore (
    step quiet
      (rotates "sess_1" "99" "P2P-zz" 7)
      (step quiet (joins "sess_1" carol) (step quiet (creates nobody_yet) new_memory)))
Reachable-IsStore_example = Reachable-IsStore history

-- Carol joins, and waits as Bob does.
join_session-IsWithin_example : IsWithin (admitted quiet carol 6 group).session
unfolding join_session admit free_index free_index_from any find count String_discrete
join_session-IsWithin_example =
    join_session-IsWithin quiet carol 6 group (admitted quiet carol 6 group) refl (λ m e. inr refl)
      (omega arith)

group-IsSession : IsSession group
unfolding String_discrete
group-IsSession = record {
  members = record {
    ids_differ = ((differ _ _ refl, tt), (tt, tt));
    nodes_differ = ((differ _ _ refl, tt), (tt, tt));
    indices_differ = ((λ e. absurd (omega arith), tt), (tt, tt));
    indices_fit = ((omega arith, omega arith), ((omega arith, omega arith), tt));
  };
  joins = inr (omega arith);
}

join_session-IsSession_example : IsSession (admitted quiet carol 6 group).session
unfolding join_session admit free_index free_index_from any find String_discrete
join_session-IsSession_example =
    join_session-IsSession quiet carol 6 group (admitted quiet carol 6 group) refl group-IsSession

-- Bob, denied, comes back to a session of one that is full.
abbrev small : SessionRecord
small = record (group_of (alice ∷ record bob { status = MemberStatus.denied } ∷ [])) {
  max_members = 1;
  require_approval = false;
}

rejoin-exceeds_example :
    active_members
      (rejoin
        (record carol { node_id = "node_b" })
        6
        small
        (record bob { status = MemberStatus.denied })).session
    ≡ 2
unfolding find count rejoin revive String_discrete
rejoin-exceeds_example =
    rejoin-exceeds (record carol { node_id = "node_b" }) 6 small
      (record bob { status = MemberStatus.denied }) refl refl refl refl

free_index-FreeFrom_example : FreeFrom group.members 1 3
unfolding free_index free_index_from any
free_index-FreeFrom_example = free_index-FreeFrom group

number_id-IsFree_example :
    (id : String) × (number_id group "mbr_" 3 0 ≡ some id) × (member_by_id group id ≡ none)
number_id-IsFree_example = number_id-IsFree group "mbr_"

new_member_id-fresh_example : member_by_id group (new_member_id quiet group) ≡ none
new_member_id-fresh_example = new_member_id-fresh quiet group

get_by_join_code-create_example :
    (get_by_join_code quiet " p2p-ABCD" (after_pair new_memory (create quiet group new_memory))
      ≡ ok group)
    × (get quiet "sess_1" (after_pair new_memory (create quiet group new_memory)) ≡ ok group)
unfolding create register_code new_memory insert lookup normalize_code trim_space to_upper
    remove_char String_discrete
get_by_join_code-create_example =
    get_by_join_code-create quiet quiet group group new_memory
      (after_pair new_memory (create quiet group new_memory)) " p2p-ABCD" refl coded refl refl

pub stored-IsStore : IsStore stored
unfolding step create register_code new_memory lookup insert normalize_code trim_space to_upper
    remove_char String_discrete
stored-IsStore = Reachable-IsStore (
    called stored quiet (creates group) (fresh new_memory refl)
      (group-IsSession, inr (coded, keyed)) refl)

abbrev rotated : MemoryStore
rotated = after stored (rotate_token quiet "sess_1" "99" "P2P-zz" 7 stored)

abbrev without_token : MemoryStore
without_token = after stored (revoke quiet "sess_1" 6 stored)

join-revoke_example : join quiet "sess_1" carol without_token ≡ err revoked
unfolding revoke lookup insert find is_expired String_discrete
join-revoke_example =
    join-revoke quiet quiet "sess_1" 6 carol group stored without_token refl refl refl refl refl
      refl
