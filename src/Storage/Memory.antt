-- ===== src/Storage/Memory.antt =====
-- internal/storage/memory.go: the store in memory. The mutex makes each method one step; records
-- go in and out as deep copies, so a record is a value here and a write through a pointer into a
-- session is a new session under the same key.
use p2p_server.Base.{
  ℕ, String, Bool, true, false, not, ◌&&◌, none, some, List, [], Result, ok, err, ◌>>=◌, ◌>>◌,
  reject_if, or_fail, ◌==◌, same, if◌then◌else◌, String_discrete, length,
}
use p2p_server.Base.Dict.{lookup, insert, erase}
use p2p_server.Base.Search.{modify, remove_first}
use p2p_server.Base.Texts.{to_upper, remove_char, trim_space}
use p2p_server.Storage.{
  Env, StoreError, not_found, expired, closed, member_missing, conflict, context_done, MemberRecord,
  SessionRecord, is_expired, has_id, member_by_id, JoinRequest, JoinOutcome, ListFilter, Store,
}
use p2p_server.Storage.Admission.{join_session}
use p2p_server.Storage.Listing.{list_sessions}

pub record MemoryStore : Type 0 where
  pub by_id : List (String × SessionRecord)
  pub by_code : List (String × String)

-- `NewMemory`
unfoldable pub new_memory : MemoryStore
new_memory = record { by_id = []; by_code = [] }

unfoldable pub normalize_code : String → String
normalize_code code = remove_char " " (remove_char "-" (to_upper (trim_space code)))

abbrev pub is_taken : {V : Type 0} → String → List (String × V) → Bool
is_taken k m = elim (lookup String_discrete k m) [ none ↦ false | some _ ↦ true ]

-- `if err := ctx.Err(); err != nil { return err }`
abbrev pub check_context : Env → Result StoreError (Unit {0})
check_context env = elim env.ctx_err [ none ↦ ok tt | some cause ↦ err (context_done cause) ]

-- `time.Now()` in place of a zero time.
abbrev pub or_now : Env → ℕ → ℕ
or_now env t = if t == 0 then env.wall_clock else t

abbrev pub session_of : MemoryStore → String → Result StoreError SessionRecord
session_of s sid = or_fail (lookup String_discrete sid s.by_id) not_found

-- The session under a key, written in place.
abbrev pub put_session : String → SessionRecord → MemoryStore → MemoryStore
put_session sid rec s = record s { by_id = insert String_discrete sid rec s.by_id }

-- The second `if` of `Create`.
unfoldable pub register_code :
    SessionRecord → List (String × String) → Result StoreError (List (String × String))
register_code rec codes =
    if same rec.join_code ""
    then ok codes
    else if is_taken (normalize_code rec.join_code) codes
    then err conflict
    else ok (insert String_discrete (normalize_code rec.join_code) rec.id codes)

-- The record comes back with `CreatedAt` set, as the caller sees it through its pointer.
unfoldable pub create :
    Env → SessionRecord → MemoryStore → Result StoreError (SessionRecord × MemoryStore)
create env rec s = do
  check_context env
  reject_if (is_taken rec.id s.by_id) conflict
  codes ← register_code rec s.by_code
  let rec' = record rec { created_at = or_now env rec.created_at }
  ok (rec', record { by_id = insert String_discrete rec.id rec' s.by_id; by_code = codes })

unfoldable pub get : Env → String → MemoryStore → Result StoreError SessionRecord
get env sid s = do check_context env; session_of s sid

unfoldable pub get_by_join_code : Env → String → MemoryStore → Result StoreError SessionRecord
get_by_join_code env code s = do
  check_context env
  sid ← or_fail (lookup String_discrete (normalize_code code) s.by_code) not_found
  session_of s sid

unfoldable pub join :
    Env → String → JoinRequest → MemoryStore → Result StoreError (JoinOutcome × MemoryStore)
join env sid req s = do
  check_context env
  let now = or_now env req.now
  rec ← session_of s sid
  reject_if rec.closed closed
  reject_if (is_expired rec now) expired
  out ← join_session env req now rec
  ok (out, put_session sid out.session s)

-- A nil member has no place here; one without an ID is refused as the code does.
unfoldable pub update_member :
    Env → String → MemberRecord → MemoryStore → Result StoreError MemoryStore
update_member env sid m s = do
  check_context env
  reject_if (same m.id "") member_missing
  rec ← session_of s sid
  _ ← or_fail (member_by_id rec m.id) member_missing
  ok (put_session sid (record rec { members = modify (has_id m.id) (λ _. m) rec.members }) s)

unfoldable pub remove_member : Env → String → String → MemoryStore → Result StoreError MemoryStore
remove_member env sid mid s = do
  check_context env
  rec ← session_of s sid
  _ ← or_fail (member_by_id rec mid) member_missing
  ok (put_session sid (record rec { members = remove_first (has_id mid) rec.members }) s)

unfoldable pub go_offline : ℕ → MemberRecord → MemberRecord
go_offline now m = record m { connection_id = ""; leave_at = now }

unfoldable pub mark_offline :
    Env → String → String → String → ℕ → MemoryStore → Result StoreError MemoryStore
mark_offline env sid mid conn now0 s = do
  check_context env
  let now = or_now env now0
  rec ← session_of s sid
  m ← or_fail (member_by_id rec mid) member_missing
  reject_if (not (same conn "") && not (same m.connection_id conn)) conflict
  ok (put_session sid (record rec { members = modify (has_id mid) (go_offline now) rec.members }) s)

unfoldable pub revoke : Env → String → ℕ → MemoryStore → Result StoreError MemoryStore
revoke env sid now s = do
  check_context env
  rec ← session_of s sid
  ok (put_session sid (record rec { revoked = true }) s)

-- The `if` of `RotateToken` on the secondary index.
unfoldable pub swap_code :
    String → String → String → List (String × String) → Result StoreError (List (String × String))
swap_code sid old_key new_key codes =
    if not (same new_key "") && not (same new_key old_key)
    then (if is_taken new_key codes
        then err conflict
        else ok (
            insert String_discrete new_key sid
              (if same old_key "" then codes else erase String_discrete old_key codes)))
    else ok codes

unfoldable pub rotate_token :
    Env → String → String → String → ℕ → MemoryStore → Result StoreError MemoryStore
rotate_token env sid new_hash new_code now s = do
  check_context env
  rec ← session_of s sid
  codes ← swap_code sid (normalize_code rec.join_code) (normalize_code new_code) s.by_code
  let rec' = record rec { join_code = new_code; token_hash = new_hash; revoked = false }
  ok (record { by_id = insert String_discrete sid rec' s.by_id; by_code = codes })

unfoldable pub close : Env → String → MemoryStore → Result StoreError MemoryStore
close env sid s = do
  check_context env
  rec ← session_of s sid
  ok (put_session sid (record rec { closed = true }) s)

unfoldable pub delete : Env → String → MemoryStore → Result StoreError MemoryStore
delete env sid s = do
  check_context env
  rec ← session_of s sid
  let codes =
      if same rec.join_code ""
      then s.by_code
      else erase String_discrete (normalize_code rec.join_code) s.by_code
  ok (record { by_id = erase String_discrete sid s.by_id; by_code = codes })

unfoldable pub list : Env → ListFilter → MemoryStore → Result StoreError (List SessionRecord)
list env f s = do check_context env; ok (list_sessions f s.by_id)

-- `Count`
pub size : MemoryStore → ℕ
size s = length s.by_id

-- The implementation of the interface.
abbrev pub memory : Store
memory = record {
  State = MemoryStore;
  create = create;
  get = get;
  get_by_join_code = get_by_join_code;
  join = join;
  update_member = update_member;
  remove_member = remove_member;
  mark_offline = mark_offline;
  revoke = revoke;
  rotate_token = rotate_token;
  close = close;
  delete = delete;
  list = list;
}
