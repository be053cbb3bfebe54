-- ===== src/Session/Approval.antt =====
-- The owner's approval and rejection, over the store in memory.
use p2p_server.Base.{
  ◌+◌, ◌≡◌, inl, inr, sym, String, true, false, some, ok, arith, Option-cases, String_discrete,
}
use mathlib.Core.Path.{subst}
use p2p_server.Base.Search.{find, find_holds, modify, find-modify}
use p2p_server.Base.Dict.{lookup-insert_self}
use p2p_server.Protocol.{MemberStatus, is_pending, is_owner}
use p2p_server.Storage.{Env, MemberRecord, SessionRecord, active_members, member_by_id, has_id}
use p2p_server.Storage.Capacity.{IsWithin, count-modify}
use p2p_server.Storage.Invariant.Stored.{session_at}
use p2p_server.Storage.Memory.{MemoryStore, memory, get, update_member}
use p2p_server.Session.{Service}
use p2p_server.Session.Query.{member_index_for, is_active_member}
use p2p_server.Session.Change.{approve, reject}

-- An approval was asked for by the owner, of a member who waited, in a session with room; it makes
-- that member active, and one active member more is still within the cap.
pub approve-IsWithin :
    (env : Env) (s : Service) (sid owner_id target_id : String) (state state' : MemoryStore)
    (m : MemberRecord)
    → approve memory env s sid owner_id target_id state ≡ ok (m, state')
    → (rec : SessionRecord) × (rec' : SessionRecord) × (boss : MemberRecord) × (old : MemberRecord)
      × (session_at state sid ≡ some rec)
      × (member_by_id rec owner_id ≡ some boss)
      × (is_owner boss.role ≡ true)
      × (member_by_id rec target_id ≡ some old)
      × (is_pending old.status ≡ true)
      × (m ≡ record old { status = MemberStatus.active; joined_at = s.now })
      × (session_at state' sid ≡ some rec')
      × (active_members rec' ≡ active_members rec + 1)
      × IsWithin rec'
unfolding approve get update_member
approve-IsWithin env s sid owner_id target_id state state' m h =
    elim (Option-cases (session_at state sid)) [
      | inl e ↦ absurd (ground (arith, e, h))
      | inr (rec, e) ↦ elim (Option-cases (member_by_id rec owner_id)) [
        | inl b ↦ absurd (ground (arith, e, b, h))
        | inr (boss, b) ↦ elim (Option-cases (member_by_id rec target_id)) [
          | inl t ↦ absurd (ground (arith, e, b, t, h))
          | inr (old, t) ↦
              let named = find_holds (has_id target_id) rec.members old t in
              let w : MemberRecord = record old {
                status = MemberStatus.active;
                joined_at = s.now;
              } in
              let rec' : SessionRecord = record rec {
                members = modify (has_id old.id) (λ _. w) rec.members;
              } in
              let q : old.id ≡ target_id = ground (arith, named) in
              let t' : member_by_id rec old.id ≡ some old =
                subst (λ k. member_by_id rec k ≡ some old) (sym q) t in
              let counted = count-modify (has_id old.id) (λ _. w) rec.members old t' in
              let stored = lookup-insert_self String_discrete sid rec' state.by_id in
              (
                rec,
                rec',
                boss,
                old,
                e,
                b,
                ground (arith, e, b, t, h),
                t,
                ground (arith, e, b, t, h),
                ground (arith, e, b, t, t', h),
                ground (arith, e, b, t, t', h, stored),
                ground (arith, e, b, t, h, counted),
                ground (arith, e, b, t, h, counted),
              )
        ]
      ]
    ]

-- A member whom the owner has rejected is no active member of the session any more.
pub is_active_member-reject :
    (env env' : Env) (s : Service) (sid owner_id target_id : String) (state state' : MemoryStore)
    → reject memory env sid owner_id target_id state ≡ ok state'
    → is_active_member memory env' s sid target_id state' ≡ false
unfolding reject get update_member is_active_member member_index_for
is_active_member-reject env env' s sid owner_id target_id state state' h =
    elim (Option-cases (session_at state sid)) [
      | inl e ↦ absurd (ground (arith, e, h))
      | inr (rec, e) ↦ elim (Option-cases (member_by_id rec target_id)) [
        | inl t ↦ absurd (ground (arith, e, t, h))
        | inr (old, t) ↦
            let w : MemberRecord = record old {
              status = MemberStatus.denied;
              connection_id = "";
            } in
            let rec' : SessionRecord = record rec {
              members = modify (has_id old.id) (λ _. w) rec.members;
            } in
            let named = find_holds (has_id target_id) rec.members old t in
            let q : old.id ≡ target_id = ground (arith, named) in
            let found : member_by_id rec' target_id ≡ some w =
              subst (λ k. find (has_id k) rec'.members ≡ some w) q
                (find-modify (has_id old.id) (λ _. w) rec.members old
                  (subst (λ k. member_by_id rec k ≡ some old) (sym q) t) (ground arith)) in
            let stored = lookup-insert_self String_discrete sid rec' state.by_id in
            ground (arith, e, t, h, stored, found)
      ]
    ]
