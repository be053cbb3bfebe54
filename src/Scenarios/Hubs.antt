-- ===== src/Scenarios/Hubs.antt =====
-- Examples of the hub's theorems.
use p2p_server.Base.{
  ◌+◌, ◌≡◌, ◌<◌, ◌≤◌, ◌||◌, leb, length, refl, ◌⊎◌, true, false, not, none, some, [], ◌∷◌, ◌++◌,
  arith, String_discrete, ℕ_discrete,
}
use p2p_server.Base.Dict.{lookup, insert}
use p2p_server.Base.Search.{count}
use p2p_server.Member.{binary, Kind, Conn, Hub, new_conn, send}
use p2p_server.Member.Attach.{attach, detach}
use p2p_server.Member.Deliver.{broadcast_to, is_left_out}
use p2p_server.Member.Departure.{detach-lookup_index}
use p2p_server.Member.Approval.{make_approved-lookup}
use p2p_server.Member.Members.{make_approved, has_member, is_approved, lookup_member_by_index}
use p2p_server.Member.Presence.{IsHub, attach-lookup}
use p2p_server.Member.Entry.{attach-IsHub}
use p2p_server.Member.Queue.{IsConn, send-IsConn, broadcast_to-count, broadcast_to-elsewhere}
use p2p_server.Scenarios.{empty_hub, hub_1, hub_2}

-- A connection that has lost 63 frames.
abbrev worn : Conn
worn = record (new_conn "conn_1" "sess_1" "mbr_1" Kind.relay 1) { dropped = 63 }

send-IsConn_example :
    IsConn (send (binary []) worn).0
    × ((length worn.out < 256)
          × ((send (binary []) worn).1 ≡ true)
          × ((send (binary []) worn).0 ≡ record worn { out = worn.out ++ binary [] ∷ [] })
        ⊎ (256 ≤ length worn.out)
          × ((send (binary []) worn).1 ≡ false)
          × ((send (binary []) worn).0.out ≡ worn.out)
          × ((send (binary []) worn).0.dropped ≡ worn.dropped + 1)
          × ((send (binary []) worn).0.is_closed ≡ (leb 64 (worn.dropped + 1) || worn.is_closed)))
unfolding new_conn
send-IsConn_example =
    send-IsConn (binary []) worn
      (record { bounded = omega arith; dropped_closed = λ h. absurd (omega arith) })

broadcast_to-count_example :
    (broadcast_to "mbr_1" (binary []) (hub_2.online 0 ∷ hub_2.online 1 ∷ []) hub_2).1
    ≡ count (λ v. not (is_left_out "mbr_1" v)) (hub_2.online 0 ∷ hub_2.online 1 ∷ [])
broadcast_to-count_example =
    broadcast_to-count "mbr_1" (binary []) (hub_2.online 0 ∷ hub_2.online 1 ∷ []) hub_2

empty_hub-IsHub : IsHub empty_hub
unfolding lookup
empty_hub-IsHub = record { named = λ sid r mid p e f. absurd (ground (arith, e)) }

hub_1-IsHub : IsHub hub_1
hub_1-IsHub = attach-IsHub 1 "sess_1" "mbr_1" "conn_1" Kind.relay 1 true empty_hub empty_hub-IsHub

attach-IsHub_example : IsHub hub_2
attach-IsHub_example = attach-IsHub 2 "sess_1" "mbr_2" "conn_2" Kind.relay 2 true hub_1 hub_1-IsHub

attach-lookup_example :
    (has_member "sess_1" "mbr_2" hub_2 ≡ true)
    × (is_approved "sess_1" "mbr_2" hub_2 ≡ true)
    × (lookup_member_by_index "sess_1" 2 hub_2 ≡ some "mbr_2")
attach-lookup_example =
    attach-lookup 2 "sess_1" "mbr_2" "conn_2" Kind.relay 2 true hub_1 hub_1-IsHub

-- The second member has the first one's index, before the first one's connection closes.
abbrev shared : Hub
shared = (attach 2 "sess_1" "mbr_2" "conn_2" Kind.relay 1 true hub_1).0

detach-lookup_index_example : lookup_member_by_index "sess_1" 1 (detach 0 shared).0 ≡ none
unfolding attach new_conn lookup insert String_discrete ℕ_discrete
detach-lookup_index_example =
    detach-lookup_index 0 0
      (record {
        session_id = "sess_1";
        members = ("mbr_1", 0) ∷ ("mbr_2", 1) ∷ [];
        by_index = (1, 1) ∷ [];
      })
      shared refl refl refl

-- The first member's connection is untouched by its own broadcast.
broadcast_to-elsewhere_example :
    (broadcast_to "mbr_1" (binary []) (hub_2.online 0 ∷ hub_2.online 1 ∷ []) hub_2).0.conns 0
    ≡ hub_2.conns 0
unfolding attach new_conn lookup insert String_discrete ℕ_discrete
broadcast_to-elsewhere_example =
    broadcast_to-elsewhere "mbr_1" (binary []) (hub_2.online 0 ∷ hub_2.online 1 ∷ []) 0 hub_2
      ((λ e. absurd (ground (arith, e))), ((λ e h. absurd (ground (arith, h))), tt))

-- The second member waits under no index of its own, and is approved under 2.
abbrev waiting : Hub
waiting = (attach 2 "sess_1" "mbr_2" "conn_2" Kind.control 0 false hub_1).0

waiting-IsHub : IsHub waiting
waiting-IsHub = attach-IsHub 2 "sess_1" "mbr_2" "conn_2" Kind.control 0 false hub_1 hub_1-IsHub

make_approved-lookup_example :
    let h' = (make_approved "sess_1" "mbr_2" 2 waiting).0 in
    (has_member "sess_1" "mbr_2" h' ≡ true)
    × (is_approved "sess_1" "mbr_2" h' ≡ true)
    × (lookup_member_by_index "sess_1" 2 h' ≡ some "mbr_2")
unfolding make_approved attach new_conn lookup insert String_discrete ℕ_discrete
make_approved-lookup_example = make_approved-lookup "sess_1" "mbr_2" 2 waiting waiting-IsHub refl
