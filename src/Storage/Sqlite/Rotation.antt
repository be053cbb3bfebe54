-- ===== src/Storage/Sqlite/Rotation.antt =====
-- The tables and the store in memory after `RotateToken`.
use p2p_server.Base.{
  ℕ, ◌≡◌, refl, ◌∙◌, ap, ◌≢◌, inl, inr, String, true, false, arith, same, if◌then◌else◌,
  String_discrete, Option-cases, Bool-cases,
}
use p2p_server.Base.Dict.{insert, erase}
use p2p_server.Base.Table.{any-find-some, any-find-none}
use p2p_server.Storage.{Env, not_found, conflict, SessionRecord}
use p2p_server.Storage.Invariant.Stored.{session_at, code_at, IsStore}
use p2p_server.Storage.Memory
use p2p_server.Storage.Memory.{
  MemoryStore, normalize_code, is_taken, swap_code, register_code, or_now,
}
use p2p_server.Storage.Sqlite.{Tables, Json, IsJson}
use p2p_server.Storage.Sqlite.Agree.{
  IsQuiet, Both, Both-ok, Both-err, Agrees, Holds-some, Holds-none,
}
use p2p_server.Storage.Sqlite.Calls.{rotate_token, set_token}
use p2p_server.Storage.Sqlite.Codes.{no_code, find_norm-code_at, find_norm-none, is_held-false}
use p2p_server.Storage.Sqlite.Entry.{has_norm, is_norm_taken, set_session}
use p2p_server.Storage.Sqlite.Rows.{session_row}
use p2p_server.Storage.Sqlite.Sessions.{row-Agrees}

own : (a b : String) → same a b ≡ true → a ≡ b
own a b e = ground arith

module _ (c : Json) (v : IsJson c) (t : Tables) (s : MemoryStore) (g : Agrees c v t s)
    (w : IsStore s) where
  -- The search for a real code in the tables, and the one in memory.
  pub is_norm_taken_lem :
      (norm : String) → norm ≢ "" → is_norm_taken norm t ≡ is_taken norm s.by_code
  is_norm_taken_lem norm real = elim (Option-cases (code_at s norm)) [
    | inl e ↦
        let h = any-find-none (has_norm norm) t.sessions (find_norm-none c v t s g w norm real e) in
        ground (arith, e, h)
    | inr (k, e) ↦
        let f = find_norm-code_at c v t s g w norm real k e in
        let h = any-find-some (has_norm norm) t.sessions (k, f.0) f.1 in ground (arith, e, h, real)
  ]

  -- `RotateToken` to a real code: on both stores it fails with the same error, or leaves them in
  -- agreement.
  pub rotate_token-Both :
      (sid : String) (env : Env) (hash code : String) (now : ℕ)
      → IsQuiet env
      → normalize_code code ≢ ""
      → Both
          (Agrees c v)
          (rotate_token env sid hash code now t)
          (Memory.rotate_token env sid hash code now s)
  unfolding rotate_token Memory.rotate_token swap_code session_row
  rotate_token-Both sid env hash code now q real =
      let fails =
        Both-err (Agrees c v) (rotate_token env sid hash code now t)
          (Memory.rotate_token env sid hash code now s) in
      let fine =
        Both-ok (Agrees c v) (rotate_token env sid hash code now t)
          (Memory.rotate_token env sid hash code now s) in
      elim (Option-cases (session_at s sid)) [
        | inl e ↦
            let k = (Holds-none c v t s g sid e).0 in
            fails not_found (ground (arith, q.live, q.starts, k)) (ground (arith, q.live, e))
        | inr (rec, e) ↦
            let (row, _, dated, _) = Holds-some c v t s g sid rec e in
            let rec' : SessionRecord = record rec {
              join_code = code;
              token_hash = hash;
              revoked = false;
            } in
            let norm = normalize_code code in
            let old = normalize_code rec.join_code in
            let taken = is_norm_taken_lem norm real in
            let written =
              λ (s' : MemoryStore) (h : s'.by_id ≡ insert String_discrete sid rec' s.by_id).
                row-Agrees c v t s g sid s' rec rec' (set_token hash code) e
                  (unfold session_row in refl) refl
                  (record { created = dated.created; expires = dated.expires }) h in
            elim (Bool-cases (same norm old)) [
              | inl z ↦
                  let coded : rec.join_code ≢ "" =
                    λ p. real (own norm old z ∙ (ap normalize_code p ∙ no_code)) in
                  let leads = (w.known sid rec e coded).0 in
                  let free =
                    is_held-false c v t s g w norm real sid
                      (λ k h. ground (arith, own norm old z, leads, h)) in
                  let s' : MemoryStore = record {
                    by_id = insert String_discrete sid rec' s.by_id;
                    by_code = s.by_code;
                  } in
                  fine (set_session sid (set_token hash code) t) s'
                    (ground (arith, q.live, q.starts, q.commits, row, z, free))
                    (ground (arith, q.live, e, z)) (written s' refl)
              | inr z ↦ elim (Option-cases (code_at s norm)) [
                | inr (k, f) ↦
                    fails conflict (ground (arith, q.live, q.starts, row, z, taken, f, real))
                      (ground (arith, q.live, e, z, f, real))
                | inl f ↦
                    let free =
                      is_held-false c v t s g w norm real sid
                        (λ k h. absurd (ground (arith, f, h))) in
                    let codes =
                      insert String_discrete norm sid
                        (if same old "" then s.by_code else erase String_discrete old s.by_code) in
                    let s' : MemoryStore = record {
                      by_id = insert String_discrete sid rec' s.by_id;
                      by_code = codes;
                    } in
                    fine (set_session sid (set_token hash code) t) s'
                      (ground (arith, q.live, q.starts, q.commits, row, z, taken, f, real, free))
                      (ground (arith, q.live, e, z, f, real)) (written s' refl)
              ]
            ]
      ]
