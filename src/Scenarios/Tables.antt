-- ===== src/Scenarios/Tables.antt =====
-- Examples of the SQLite store's theorems.
use p2p_server.Base.{ℕ, ◌+◌, ◌≡◌, refl, ◌≢◌, inl, inr, List, [], ◌∷◌, ok, arith, String_discrete}
use p2p_server.Storage.{MemberRecord, SessionRecord, JoinRequest, Env}
use p2p_server.Storage.Invariant.{IsSession}
use p2p_server.Storage.Invariant.Codes.{new_memory-IsStore}
use p2p_server.Storage.Invariant.History.{Call, creates, joins, rotates, removes}
use p2p_server.Storage.Invariant.Stored.{IsStore}
use p2p_server.Storage.Memory
use p2p_server.Storage.Memory.{MemoryStore, memory, new_memory}
use p2p_server.Storage.Runs.{final, failures}
use p2p_server.Storage.Sqlite.{Tables, MemberRow, new_tables}
use p2p_server.Storage.Sqlite.Agree.{IsQuiet, Both, Agrees}
use p2p_server.Storage.Sqlite.Answers.{join-Both, get_by_join_code-Both}
use p2p_server.Storage.Sqlite.Calls
use p2p_server.Storage.Sqlite.Calls.{sqlite}
use p2p_server.Storage.Sqlite.Columns.{IsHeld, IsDated, scan_member-encode_member}
use p2p_server.Storage.Sqlite.Entry
use p2p_server.Storage.Sqlite.Order.{ordered}
use p2p_server.Storage.Sqlite.Refine.{
  AreProper, failures-Agrees, final-IsStore, new_tables-Agrees, get-final,
}
use p2p_server.Storage.Sqlite.Rejoin.{IsSame}
use p2p_server.Storage.Sqlite.Rows.{encode_member, scan_member}
use p2p_server.Scenarios.{quiet, alice, carol, differ}
use p2p_server.Scenarios.Columns.{marked, marked-IsJson}
use p2p_server.Scenarios.Stores.{nobody_yet, nobody_yet-IsSession, coded, keyed, new_keyed}

-- A moment in 2025.
abbrev today : ℕ
today = 63900000000000000000

abbrev shared : SessionRecord
shared = record nobody_yet { created_at = today; expires_at = today + 9000 }

abbrev dora : JoinRequest
dora = record carol { capabilities = "relay" ∷ []; now = today + 1 }

abbrev erin : JoinRequest
erin = record carol { node_id = "node_e"; now = today + 2 }

quiet-IsQuiet : IsQuiet quiet
quiet-IsQuiet = record { live = refl; starts = refl; commits = refl }

shared-IsSession : IsSession shared
shared-IsSession = record {
  members = nobody_yet-IsSession.members;
  joins = nobody_yet-IsSession.joins;
}

named : shared.id ≢ ""
unfolding String_discrete
named = differ _ _ refl

shared-IsDated : IsDated shared
shared-IsDated = record { created = inr (omega arith); expires = inr (omega arith) }

-- A session is created, a node joins, the token is rotated, and a member who is not there is
-- removed.
abbrev calls : List (Env × Call)
calls =
    (quiet, creates shared)
    ∷ (quiet, joins "sess_1" dora)
    ∷ (quiet, rotates "sess_1" "99" "P2P-zz" 7)
    ∷ (quiet, removes "sess_1" "mbr_x")
    ∷ []

calls-AreProper : AreProper calls new_memory
calls-AreProper = (
  quiet-IsQuiet,
  (shared-IsSession, inr (coded, keyed)),
  (named, omega arith, refl, shared-IsDated),
  (
    quiet-IsQuiet,
    tt,
    inr (omega arith),
    (quiet-IsQuiet, new_keyed, tt, (quiet-IsQuiet, tt, tt, tt)),
  ),
)

get-final_example :
    (failures (sqlite marked) calls new_tables ≡ failures memory calls new_memory)
    × Both
        (λ a b. a ≡ ordered b)
        ((sqlite marked).get quiet "sess_1" (final (sqlite marked) calls new_tables))
        (memory.get quiet "sess_1" (final memory calls new_memory))
get-final_example =
    get-final marked marked-IsJson calls quiet "sess_1" calls-AreProper quiet-IsQuiet

abbrev tables_then : Tables
tables_then = final (sqlite marked) calls new_tables

abbrev store_then : MemoryStore
store_then = final memory calls new_memory

then-IsStore : IsStore store_then
then-IsStore =
    final-IsStore marked marked-IsJson calls new_memory calls-AreProper new_memory-IsStore

then-Agrees : Agrees marked marked-IsJson tables_then store_then
then-Agrees =
    (failures-Agrees marked marked-IsJson calls new_tables new_memory calls-AreProper
      new_memory-IsStore (new_tables-Agrees marked marked-IsJson)).1

join-Both_example :
    Both
      (λ a b. IsSame a.0 b.0 × Agrees marked marked-IsJson a.1 b.1)
      (Entry.join marked quiet "sess_1" erin tables_then)
      (Memory.join quiet "sess_1" erin store_then)
join-Both_example =
    join-Both marked marked-IsJson tables_then store_then then-Agrees then-IsStore quiet
      quiet-IsQuiet "sess_1" erin (inr (omega arith))

get_by_join_code-Both_example :
    Both
      (λ a b. a ≡ ordered b)
      (Calls.get_by_join_code marked quiet "p2p-ZZ" tables_then)
      (Memory.get_by_join_code quiet "p2p-ZZ" store_then)
get_by_join_code-Both_example =
    get_by_join_code-Both marked marked-IsJson tables_then store_then then-Agrees then-IsStore quiet
      quiet-IsQuiet "p2p-ZZ"

abbrev dora_then : MemberRecord
dora_then = record alice {
  capabilities = "relay" ∷ "direct" ∷ [];
  joined_at = today;
  last_seen = today + 1;
}

dora_then-IsHeld : IsHeld "sess_1" dora_then
dora_then-IsHeld = record {
  here = refl;
  narrow = omega arith;
  joined = inr (omega arith);
  seen = inr (omega arith);
  left = inl refl;
}

scan_member-encode_member_example :
    (row : MemberRow) × (encode_member marked "sess_1" dora_then ≡ ok row)
    × (scan_member marked "sess_1" row ≡ ok dora_then)
scan_member-encode_member_example =
    scan_member-encode_member marked marked-IsJson "sess_1" dora_then dora_then-IsHeld
