-- ===== src/Client/Stream/Delivery.antt =====
-- Frames that arrive in any order are handed to the application in the order of their numbers.
use p2p_server.Base.{
  ℕ, ◌+◌, ◌≤◌, ◌<◌, ◌≡◌, refl, ◌∙◌, ap, true, false, List, [], ◌∷◌, arith, length, All, ℕ_discrete,
}
use native.Mathlib.Decide.{dec_lt}
use p2p_server.Base.Dict.{lookup}
use p2p_server.Base.Distinct.{Distinct}
use p2p_server.Client.Stream.{Bytes, Stream, deliver, max_reorder_buffer, in_capacity}
use p2p_server.Client.Stream.Behind.{has, seq_of, messages, IsBehind}
use p2p_server.Client.Stream.Arrival.{bound_after, deliver_one, fits_after, length-deliver}

module _ (base : ℕ) (msg : ℕ → Bytes) where
  -- The frames of the messages base msg `js`, as they arrive.
  abbrev pub deliver_all : List ℕ → Stream → Stream
  deliver_all [] s = s
  deliver_all (j ∷ js) s = deliver_all js (deliver (seq_of base msg j) (msg j) s)

  module _ (k : ℕ) (few : k ≤ in_capacity) where
    deliver_rest :
        (js seen : List ℕ) (n : ℕ) (s : Stream)
        → All (λ j. (j < k) × (has seen j ≡ false)) js
        → Distinct js
        → ((i : ℕ) → has seen i ≡ true → i < k)
        → length s.recv_buf ≤ length seen
        → length seen + length js < max_reorder_buffer
        → has seen n ≡ false
        → IsBehind base msg seen n s
        → (m : ℕ) × (after : List ℕ) × ((i : ℕ) → has js i ≡ true → has after i ≡ true)
          × ((i : ℕ) → has seen i ≡ true → has after i ≡ true)
          × ((i : ℕ) → has after i ≡ true → i < k)
          × (has after m ≡ false)
          × IsBehind base msg after m (deliver_all js s)
    deliver_rest [] seen n s fits d bound room total gap b =
        (n, seen, λ i h. cc h, λ i h. h, bound, gap, b)
    deliver_rest (j ∷ js) seen n s fits d bound room total gap b =
        let fit = fits.0.0 in
        let new = fits.0.1 in
        let (n', gap', b') =
          deliver_one base msg seen k j n s few fit bound new (omega arith) gap b in
        let grown = length-deliver base msg (seq_of base msg j) (msg j) s (omega arith) in
        let (m, after, all, old, bound', gone, last) =
          deliver_rest js (j ∷ seen) n' (deliver (seq_of base msg j) (msg j) s)
            (fits_after base msg seen k j js fits.1 d.0) d.1
            (bound_after base msg seen k j few fit bound new) (omega arith) (omega arith) gap' b' in
        (
          m,
          after,
          λ i h. elim (ℕ_discrete j i) [
            | yes e ↦ old i (ground (arith, e))
            | no c ↦ all i (ground (arith, h, c))
          ],
          λ i h. old i (ground (arith, h)),
          bound',
          gone,
          last,
        )

  unseen : (k : ℕ) (js : List ℕ) → All (λ j. j < k) js → All (λ j. (j < k) × (has [] j ≡ false)) js
  unseen k [] h = tt
  unseen k (j ∷ js) h = ((h.0, refl), unseen k js h.1)

  -- All of the first `k` have arrived, and no others.
  all_handed_on :
      (after : List ℕ) (m k : ℕ) (s : Stream)
      → ((j : ℕ) → j < k → has after j ≡ true)
      → ((j : ℕ) → has after j ≡ true → j < k)
      → has after m ≡ false
      → IsBehind base msg after m s
      → m ≡ k
  all_handed_on after m k s complete bound gone b = elim (dec_lt m k) [
    | yes p ↦ absurd (ground (arith, complete m p, gone))
    | no p ↦ elim (dec_lt k m) [
      | yes q ↦ absurd (omega (arith, bound k (b.below k q)))
      | no q ↦ omega arith
    ]
  ]

  -- A stream that waits for the first message, with nothing queued and no frame held.
  abbrev pub starting : Stream → Stream
  starting s = record s { recv_next = seq_of base msg 0; recv_buf = []; inbox = [] }

  -- The frames of at most 64 messages, numbered from any start with the wrap at 65536, each
  -- arriving once and in any order at a stream that waits for the first and has nothing queued or
  -- held: when all have arrived, the application can receive the messages, all of them and in the
  -- order in which they were sent.
  pub inbox-deliver_all :
      (js : List ℕ) (k : ℕ) (s : Stream)
      → k ≤ in_capacity
      → Distinct js
      → All (λ j. j < k) js
      → length js ≤ k
      → ((j : ℕ) → j < k → has js j ≡ true)
      → (deliver_all js (starting s)).inbox ≡ messages base msg k
  unfolding lookup
  inbox-deliver_all js k s few once fit short complete =
      let (m, after, all, _, bound, gone, last) =
        deliver_rest k few js [] 0 (starting s) (unseen k js fit) once (λ i h. absurd (cc))
          (omega arith) (omega arith) refl
          (record {
            next = refl;
            inbox = refl;
            below = λ j l. absurd (omega arith);
            held = λ j l. refl;
          }) in
      last.inbox
      ∙ ap (messages base msg) (
          all_handed_on after m k (deliver_all js (starting s)) (λ j l. all j (complete j l)) bound
            gone last)
