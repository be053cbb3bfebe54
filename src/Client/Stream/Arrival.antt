-- ===== src/Client/Stream/Arrival.antt =====
-- One frame that arrives at a stream.
use p2p_server.Base.{
  ℕ, zero, suc, ◌≤◌, ◌<◌, ◌≡◌, sym, ◌∙◌, ap, ◌≢◌, inl, inr, true, false, List, [], ◌∷◌, ◌++◌, arith,
  ltb, leb, ◌==◌, length, All, ℕ_discrete, Bool-cases,
}
use mathlib.Core.Path.{subst}
use p2p_server.Base.Dict.{lookup-insert}
use p2p_server.Base.Keys.{length-insert}
use p2p_server.Client.Stream.{
  Bytes, Stream, push, next_seq, make_room, deliver, max_reorder_buffer, in_capacity,
}
use p2p_server.Client.Stream.Behind.{
  has, seq_of, length-messages, seq_of-next, seq_of-ne, IsBehind, drain_lem, length-push,
  length-drain,
}

module _ (base : ℕ) (msg : ℕ → Bytes) where
  module _ (seen : List ℕ) (k j : ℕ) (few : k ≤ in_capacity) (fits : j < k)
      (bound : (i : ℕ) → has seen i ≡ true → i < k) (new : has seen j ≡ false) where
    pub bound_after : (i : ℕ) → has (j ∷ seen) i ≡ true → i < k
    bound_after i h = elim (ℕ_discrete j i) [
      | yes e ↦ omega (arith, e)
      | no n ↦ bound i (ground (arith, h, n))
    ]

    -- No more messages base msg are handed on than there are.
    within : (n : ℕ) → ((i : ℕ) → i < n → has seen i ≡ true) → n ≤ k
    within zero h = omega arith
    within (suc n) h = omega (arith, bound n (h n (omega arith)))

    handed_on :
        (s : Stream)
        → IsBehind base msg seen j s
        → IsBehind base msg
            (j ∷ seen)
            (suc j)
            (push (msg j) (record s { recv_next = next_seq s.recv_next }))
    unfolding push
    handed_on s b =
        let short : ltb (length s.inbox) in_capacity ≡ true =
          ground (arith, ap (λ (q : List Bytes). length q) b.inbox, length-messages base msg j) in
        rw short (record {
          next = ap next_seq b.next ∙ seq_of-next base msg j;
          inbox = ap (λ q. q ++ msg j ∷ []) b.inbox;
          below = λ i l. elim (ℕ_discrete j i) [
            | yes e ↦ ground (arith, e)
            | no d ↦ let q = b.below i (omega arith) in ground (arith, q)
          ];
          held = λ i l. ground (arith, b.held i l, new);
        })

    -- The frame that is due.
    deliver_due :
        (s : Stream)
        → IsBehind base msg seen j s
        → (m : ℕ) × (has (j ∷ seen) m ≡ false)
          × IsBehind base msg (j ∷ seen) m (deliver (seq_of base msg j) (msg j) s)
    unfolding deliver
    deliver_due s b =
        let test : (s.recv_next == seq_of base msg j) ≡ true = ground (arith, b.next) in
        rw test (
          drain_lem base msg (j ∷ seen) k few bound_after 65537 (suc j)
            (push (msg j) (record s { recv_next = next_seq s.recv_next })) (omega arith)
            (omega arith) (handed_on s b))

    -- A frame that is early.
    deliver_early :
        (n : ℕ) (s : Stream)
        → IsBehind base msg seen n s
        → j ≢ n
        → length s.recv_buf < max_reorder_buffer
        → IsBehind base msg (j ∷ seen) n (deliver (seq_of base msg j) (msg j) s)
    unfolding deliver make_room
    deliver_early n s b d room =
        let small = within n b.below in
        let apart : s.recv_next ≢ seq_of base msg j = λ e.
          seq_of-ne base msg n j (omega arith) (omega arith) (λ z. d (sym z)) (sym b.next ∙ e) in
        let test : (s.recv_next == seq_of base msg j) ≡ false = ground (arith, apart) in
        let above : n ≤ j = ground (arith, b.below j, new) in
        let full : leb max_reorder_buffer (length s.recv_buf) ≡ false = ground (arith, room) in
        rw (test, full)
          (record {
            next = b.next;
            inbox = b.inbox;
            below = λ i l. let q = b.below i l in ground (arith, q);
            held = λ i l.
                lookup-insert ℕ_discrete (seq_of base msg j) (seq_of base msg i) (msg j) s.recv_buf
                ∙ elim (ℕ_discrete j i) [
                  | yes e ↦ let q = ap (seq_of base msg) e in ground (arith, q, e, above)
                  | no c ↦
                      let q = seq_of-ne base msg j i (omega arith) l c in
                      ground (arith, q, c, b.held i l)
                ];
          })

  pub length-deliver :
      (q : ℕ) (p : Bytes) (s : Stream)
      → length s.recv_buf < max_reorder_buffer
      → length (deliver q p s).recv_buf ≤ suc (length s.recv_buf)
  unfolding deliver make_room
  length-deliver q p s room = elim (Bool-cases (s.recv_next == q)) [
    | inl e ↦
        let t : Stream = record s { recv_next = next_seq s.recv_next } in
        rw e (omega (arith, length-drain base msg 65537 (push p t), length-push base msg p t))
    | inr e ↦
        let full : leb max_reorder_buffer (length s.recv_buf) ≡ false = ground (arith, room) in
        rw (e, full) (length-insert ℕ_discrete q p s.recv_buf)
  ]

  -- A frame that has not arrived before.
  pub deliver_one :
      (seen : List ℕ) (k j n : ℕ) (s : Stream)
      → k ≤ in_capacity
      → j < k
      → ((i : ℕ) → has seen i ≡ true → i < k)
      → has seen j ≡ false
      → length s.recv_buf < max_reorder_buffer
      → has seen n ≡ false
      → IsBehind base msg seen n s
      → (m : ℕ) × (has (j ∷ seen) m ≡ false)
        × IsBehind base msg (j ∷ seen) m (deliver (seq_of base msg j) (msg j) s)
  deliver_one seen k j n s few fits bound new room gap b = elim (ℕ_discrete n j) [
    | yes e ↦
        deliver_due seen k j few fits bound new s (subst (λ i. IsBehind base msg seen i s) e b)
    | no d ↦ (
      n,
      ground (arith, gap, d),
      deliver_early seen k j few fits bound new n s b (λ e. d (sym e)) room,
    )
  ]

  pub fits_after :
      (seen : List ℕ) (k j : ℕ) (js : List ℕ)
      → All (λ i. (i < k) × (has seen i ≡ false)) js
      → All (λ i. i ≢ j) js
      → All (λ i. (i < k) × (has (j ∷ seen) i ≡ false)) js
  fits_after seen k j [] h d = tt
  fits_after seen k j (i ∷ js) h d =
      ((h.0.0, ground (arith, h.0.1, d.0)), fits_after seen k j js h.1 d.1)
