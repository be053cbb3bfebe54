-- ===== src/Client/Stream/Behind.antt =====
-- A stream that holds back the frames which are not yet due, and the loop of `deliver`.
use p2p_server.Base.{
  ℕ, zero, suc, ◌+◌, ◌%◌, ◌≤◌, ◌<◌, ◌≡◌, refl, sym, ◌∙◌, ap, ◌≢◌, inl, inr, Bool, true, false, ◌&&◌,
  ◌||◌, List, [], ◌∷◌, ◌++◌, none, some, arith, ltb, leb, ◌==◌, if◌then◌else◌, length,
  length-append, ℕ_discrete, Bool-cases, Option-cases,
}
use p2p_server.Base.Dict.{lookup, erase, lookup-erase}
use p2p_server.Base.Keys.{length-erase}
use p2p_server.Client.Stream.{Bytes, Stream, push, next_seq, drain, in_capacity}

-- A frame has arrived.
abbrev pub has : List ℕ → ℕ → Bool
has [] j = false
has (i ∷ is) j = i == j || has is j

module _ (base : ℕ) (msg : ℕ → Bytes) where
  -- The number on the frame of message `j`.
  abbrev pub seq_of : ℕ → ℕ
  seq_of j = (base + j) % 65536

  -- The first `n` messages.
  abbrev pub messages : ℕ → List Bytes
  messages zero = []
  messages (suc n) = messages n ++ msg n ∷ []

  pub length-messages : (n : ℕ) → length (messages n) ≡ n
  length-messages zero = refl
  length-messages (suc n) =
      omega (arith, length-append (messages n) (msg n ∷ []), length-messages n)

  pub seq_of-next : (n : ℕ) → next_seq (seq_of n) ≡ seq_of (suc n)
  seq_of-next n = omega arith

  pub seq_of-ne : (i j : ℕ) → i < 65536 → j < 65536 → i ≢ j → seq_of i ≢ seq_of j
  seq_of-ne i j hi hj n e = n (omega arith)

  -- The stream has handed on the first `n` messages, all of which have arrived, and holds the
  -- others that have.
  pub record IsBehind (seen : List ℕ) (n : ℕ) (s : Stream) : Type 0 where
    pub next : s.recv_next ≡ seq_of n
    pub inbox : s.inbox ≡ messages n
    pub below : (j : ℕ) → j < n → has seen j ≡ true
    pub held :
        (j : ℕ)
        → j < 65536
        → lookup ℕ_discrete (seq_of j) s.recv_buf
          ≡ (if has seen j && leb n j then some (msg j) else none)

  module _ (seen : List ℕ) (k : ℕ) (few : k ≤ in_capacity)
      (bound : (j : ℕ) → has seen j ≡ true → j < k) where
    -- What the buffer holds once the next frame is taken out.
    held_after :
        (n : ℕ) (s : Stream)
        → IsBehind seen n s
        → (j : ℕ) → j < 65536
        → n < 65536
        → lookup ℕ_discrete (seq_of j) (erase ℕ_discrete s.recv_next s.recv_buf)
          ≡ (if has seen j && leb (suc n) j then some (msg j) else none)
    held_after n s b j l m =
        lookup-erase ℕ_discrete s.recv_next (seq_of j) s.recv_buf ∙ elim (ℕ_discrete n j) [
          | yes e ↦
              let here : s.recv_next ≡ seq_of j = b.next ∙ ap seq_of e in ground (arith, here, e)
          | no d ↦
              let there : s.recv_next ≢ seq_of j = λ e. seq_of-ne n j m l d (sym b.next ∙ e) in
              ground (arith, there, d, b.held j l)
        ]

    -- One round of the loop.
    step-IsBehind :
        (n : ℕ) (s : Stream)
        → IsBehind seen n s
        → has seen n ≡ true
        → IsBehind seen (suc n) (
            push (msg n) (record s {
              recv_buf = erase ℕ_discrete s.recv_next s.recv_buf;
              recv_next = next_seq s.recv_next;
            }))
    unfolding push
    step-IsBehind n s b h =
        let below_k = bound n h in
        let short : ltb (length s.inbox) in_capacity ≡ true =
          ground (arith, ap (λ (q : List Bytes). length q) b.inbox, length-messages n, below_k) in
        rw short (record {
          next = ap next_seq b.next ∙ seq_of-next n;
          inbox = ap (λ q. q ++ msg n ∷ []) b.inbox;
          below = λ j l. elim (ℕ_discrete j n) [ yes e ↦ rw e h | no m ↦ b.below j (omega arith) ];
          held = λ j l. held_after n s b j l (omega arith);
        })

    pub drain_lem :
        (rounds n : ℕ) (s : Stream)
        → k < rounds + n
        → n ≤ k
        → IsBehind seen n s
        → (m : ℕ) × (has seen m ≡ false) × IsBehind seen m (drain rounds s)
    unfolding drain
    drain_lem zero n s f l b = absurd (omega arith)
    drain_lem (suc r) n s f l b = elim (Bool-cases (has seen n)) [
      | inl h ↦
          let found : lookup ℕ_discrete s.recv_next s.recv_buf ≡ some (msg n) =
            rw b.next (b.held n (omega (arith, bound n h)) ∙ ground (arith, h)) in
          rw (drain, found)
            (drain_lem r (suc n)
              (push (msg n) (record s {
                recv_buf = erase ℕ_discrete s.recv_next s.recv_buf;
                recv_next = next_seq s.recv_next;
              }))
              (omega arith) (omega (arith, bound n h)) (step-IsBehind n s b h))
      | inr h ↦
          let found : lookup ℕ_discrete s.recv_next s.recv_buf ≡ none =
            rw b.next (b.held n (omega arith) ∙ ground (arith, h)) in
          rw (drain, found) (n, h, b)
    ]

  -- The loop and `push` add nothing to the buffer.
  pub length-push : (p : Bytes) (s : Stream) → length (push p s).recv_buf ≡ length s.recv_buf
  unfolding push
  length-push p s = ground arith

  pub length-drain :
      (rounds : ℕ) (s : Stream) → length (drain rounds s).recv_buf ≤ length s.recv_buf
  unfolding drain
  length-drain zero s = omega arith
  length-drain (suc r) s = elim (Option-cases (lookup ℕ_discrete s.recv_next s.recv_buf)) [
    | inl e ↦ rw (drain, e) (omega arith)
    | inr (p, e) ↦
        let t : Stream = record s {
          recv_buf = erase ℕ_discrete s.recv_next s.recv_buf;
          recv_next = next_seq s.recv_next;
        } in
        rw (drain, e)
          (omega (
            arith,
            length-drain r (push p t),
            length-push p t,
            length-erase ℕ_discrete s.recv_next s.recv_buf,
          ))
  ]
