-- ===== src/Session/Limits.antt =====
-- What `Create` accepts, over the store in memory.
use p2p_server.Base.{
  ℕ, zero, suc, ◌+◌, ◌≡◌, ◌≤◌, ◌<◌, inl, inr, some, [], ok, arith, Result-cases, String_discrete,
}
use p2p_server.Base.Dict.{lookup-insert_self}
use p2p_server.Base.Int.{ℤ, pos, negsuc, positive_or}
use p2p_server.Protocol.{Mode}
use p2p_server.Auth.{Crypto}
use p2p_server.Auth.Token.{new_join_token}
use p2p_server.Storage.{Env, SessionRecord}
use p2p_server.Storage.Invariant.Stored.{session_at}
use p2p_server.Storage.Memory.{MemoryStore, memory, or_now, register_code}
use p2p_server.Session.{Service, max_ttl}
use p2p_server.Session.Create.{
  CreateParams, CreateResult, parse_mode, member_limit, new_session, create,
}

positive_or-positive : (d : ℕ) (n : ℤ) → 0 < d → 0 < positive_or d n
positive_or-positive d (pos zero) h = omega arith
positive_or-positive d (pos (suc n)) h = omega arith
positive_or-positive d (negsuc n) h = omega arith

member_limit-positive : (m : Mode) (n : ℤ) → 0 < member_limit m n
unfolding member_limit
member_limit-positive Mode.pair n = omega arith
member_limit-positive Mode.group n = positive_or-positive 10 n (omega arith)

-- A session that was created is in the store under its ID; it has nobody in it, its cap is between
-- 1 and 1000, and it expires after now and within a week, given that the default lifetime is not 0.
pub create_ok :
    (c : Crypto) (env : Env) (s : Service) (p : CreateParams) (state state' : MemoryStore)
    (out : CreateResult)
    → 0 < s.config.default_ttl
    → create c memory env s p state ≡ ok (out, state')
    → (session_at state' out.session_id ≡ some out.session)
      × (out.session.members ≡ [])
      × (0 < out.session.max_members)
      × (out.session.max_members ≤ 1000)
      × (s.now < out.expires_at)
      × (out.expires_at ≤ s.now + max_ttl)
unfolding create new_session p2p_server.Storage.Memory.create
create_ok c env s p state state' out d h = elim (Result-cases (parse_mode p.mode)) [
  | inr (x, e) ↦ absurd (ground (arith, e, h))
  | inl (mode, e) ↦ elim (Result-cases (new_join_token env)) [
    | inr (x, f) ↦ absurd (ground (arith, e, f, h))
    | inl (token, f) ↦
        let limit = member_limit mode p.max_members in
        let ttl = positive_or s.config.default_ttl p.ttl in
        let rec = new_session c env s p mode limit ttl token in
        let rec' : SessionRecord = record rec { created_at = or_now env rec.created_at } in
        elim (Result-cases (register_code rec state.by_code)) [
          | inr (x, g) ↦ absurd (ground (arith, e, f, g, h))
          | inl (codes, g) ↦ ground (
            arith,
            e,
            f,
            g,
            h,
            member_limit-positive mode p.max_members,
            positive_or-positive s.config.default_ttl p.ttl d,
            lookup-insert_self String_discrete rec.id rec' state.by_id,
          )
        ]
  ]
]
