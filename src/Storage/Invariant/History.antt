-- ===== src/Storage/Invariant/History.antt =====
-- A store in memory after any calls of its methods.
use p2p_server.Base.{ℕ, ◌≡◌, refl, ◌≢◌, some, sym, String, Result, ok, err}
use mathlib.Core.Path.{subst}
use p2p_server.Storage.{Env, StoreError, MemberRecord, SessionRecord, JoinRequest, member_by_id}
use p2p_server.Storage.Invariant.{IsSession}
use p2p_server.Storage.Invariant.Stored.{session_at, IsStore}
use p2p_server.Storage.Invariant.Writes.{
  update_member-IsStore, remove_member-IsStore, mark_offline-IsStore, join-IsStore, revoke-IsStore,
  close-IsStore,
}
use p2p_server.Storage.Invariant.Codes.{HasRealCode, create-IsStore, new_memory-IsStore}
use p2p_server.Storage.Invariant.Rotation.{delete-IsStore, rotate_token-IsStore}
use p2p_server.Storage.Memory.{
  MemoryStore, normalize_code, new_memory, create, join, update_member, remove_member, mark_offline,
  revoke, rotate_token, close, delete,
}

-- The calls that change the store.
pub data Call : Type 0 where
  creates : SessionRecord → Call
  joins : String → JoinRequest → Call
  updates : String → MemberRecord → Call
  removes : String → String → Call
  marks_offline : String → String → String → ℕ → Call
  revokes : String → ℕ → Call
  rotates : String → String → String → ℕ → Call
  closes deletes : String → Call

abbrev pub after : {S : Type 0} → S → Result StoreError S → S
after s (ok s') = s'
after s (err _) = s

abbrev pub after_pair {ℓ} : {A : Type ℓ} {S : Type 0} → S → Result StoreError (A × S) → S
after_pair s (ok (_, s')) = s'
after_pair s (err _) = s

unfoldable pub step : Env → Call → MemoryStore → MemoryStore
step env (creates rec) s = after_pair s (create env rec s)
step env (joins sid req) s = after_pair s (join env sid req s)
step env (updates sid m) s = after s (update_member env sid m s)
step env (removes sid mid) s = after s (remove_member env sid mid s)
step env (marks_offline sid mid conn now) s = after s (mark_offline env sid mid conn now s)
step env (revokes sid now) s = after s (revoke env sid now s)
step env (rotates sid hash code now) s = after s (rotate_token env sid hash code now s)
step env (closes sid) s = after s (close env sid s)
step env (deletes sid) s = after s (delete env sid s)

-- What the callers keep to: a session is created with members that fit and a code that is none or a
-- real one, an update leaves the member's node and index, and a token is rotated to a real code.
abbrev pub IsProper : MemoryStore → Call → Type 0
IsProper s (creates rec) = IsSession rec × HasRealCode rec.join_code
IsProper s (updates sid m) =
    (rec : SessionRecord) (c : MemberRecord)
    → session_at s sid ≡ some rec
    → member_by_id rec m.id ≡ some c
    → (m.node_id ≡ c.node_id) × (m.index ≡ c.index)
IsProper s (rotates sid hash code now) = normalize_code code ≢ ""
IsProper s _ = Unit {0}

after-IsStore :
    (s : MemoryStore) (r : Result StoreError MemoryStore)
    → IsStore s
    → ((s' : MemoryStore) → r ≡ ok s' → IsStore s')
    → IsStore (after s r)
after-IsStore s (ok s') v h = h s' refl
after-IsStore s (err e) v h = v

after_pair-IsStore {ℓ} :
    {A : Type ℓ} (s : MemoryStore) (r : Result StoreError (A × MemoryStore))
    → IsStore s
    → ((a : A) (s' : MemoryStore) → r ≡ ok (a, s') → IsStore s')
    → IsStore (after_pair s r)
after_pair-IsStore s (ok (a, s')) v h = h a s' refl
after_pair-IsStore s (err e) v h = v

-- Every proper call keeps the store's invariant, whether it succeeds or fails.
pub step-IsStore :
    (env : Env) (c : Call) (s : MemoryStore) → IsProper s c → IsStore s → IsStore (step env c s)
unfolding step
step-IsStore env (creates rec) s p v =
    after_pair-IsStore s _ v (λ r s' h. create-IsStore s s' v env rec r p.0 p.1 h)
step-IsStore env (joins sid req) s p v =
    after_pair-IsStore s _ v (λ out s' h. join-IsStore s s' v env sid req out h)
step-IsStore env (updates sid m) s p v =
    after-IsStore s _ v (λ s' h. update_member-IsStore s s' v env sid m p h)
step-IsStore env (removes sid mid) s p v =
    after-IsStore s _ v (λ s' h. remove_member-IsStore s s' v env sid mid h)
step-IsStore env (marks_offline sid mid conn now) s p v =
    after-IsStore s _ v (λ s' h. mark_offline-IsStore s s' v env sid mid conn now h)
step-IsStore env (revokes sid now) s p v =
    after-IsStore s _ v (λ s' h. revoke-IsStore s s' v env sid now h)
step-IsStore env (rotates sid hash code now) s p v =
    after-IsStore s _ v (λ s' h. rotate_token-IsStore s s' v env sid hash code now p h)
step-IsStore env (closes sid) s p v = after-IsStore s _ v (λ s' h. close-IsStore s s' v env sid h)
step-IsStore env (deletes sid) s p v = after-IsStore s _ v (λ s' h. delete-IsStore s s' v env sid h)

-- The stores that a new one becomes by proper calls.
pub data Reachable : MemoryStore → Type 0 where
  fresh : (s : MemoryStore) → s ≡ new_memory → Reachable s
  called :
      {s : MemoryStore} (t : MemoryStore) (env : Env) (c : Call)
      → Reachable s
      → IsProper s c
      → t ≡ step env c s
      → Reachable t

-- After any calls that the callers may make, successful or failed, the sessions of the store keep
-- their invariant, and the index of join codes and the sessions agree.
pub Reachable-IsStore : {s : MemoryStore} → Reachable s → IsStore s
Reachable-IsStore (fresh s e) = subst IsStore (sym e) new_memory-IsStore
Reachable-IsStore (called {s} t env c r p e) =
    subst IsStore (sym e) (step-IsStore env c s p (Reachable-IsStore r))
