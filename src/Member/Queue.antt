-- ===== src/Member/Queue.antt =====
-- The queue of a connection, and what a broadcast counts.
use p2p_server.Base.{
  ◌==◌, ◌≢◌, Option, ℕ, none, some, All, ap, ◌∙◌, ◌+◌, ◌≤◌, ◌<◌, ◌||◌, ◌≡◌, refl, ◌⊎◌, inl, inr,
  String, true, false, not, List, [], ◌∷◌, ◌++◌, arith, leb, ltb, length, length-append, Bool-cases,
}
use p2p_server.Base.Search.{count}
use p2p_server.Member.{Packet, Conn, OnlineMember, Hub, send, kick}
use p2p_server.Member.Deliver.{broadcast_to, is_left_out, send_if, pick_all}

-- The channel's bound, and the slow consumer's: 64 lost frames close the connection.
pub record IsConn (c : Conn) : Type 0 where
  pub bounded : length c.out ≤ 256
  pub dropped_closed : 64 ≤ c.dropped → c.is_closed ≡ true

-- In a connection whose queue is within its bound of 256 frames, and which is closed if it has lost
-- 64: a frame is queued behind the others, and no more changes but the answer, if there are fewer than
-- 256; else it is counted as lost, the queue is as it was, and the connection is closed if 64 are lost
-- now, and else as open as before. Either way the queue stays within its bound, and a connection that
-- has lost 64 frames is closed.
pub send-IsConn :
    (f : Packet) (c : Conn)
    → IsConn c
    → IsConn (send f c).0
      × ((length c.out < 256)
            × ((send f c).1 ≡ true)
            × ((send f c).0 ≡ record c { out = c.out ++ f ∷ [] })
          ⊎ (256 ≤ length c.out)
            × ((send f c).1 ≡ false)
            × ((send f c).0.out ≡ c.out)
            × ((send f c).0.dropped ≡ c.dropped + 1)
            × ((send f c).0.is_closed ≡ (leb 64 (c.dropped + 1) || c.is_closed)))
unfolding send kick
send-IsConn f c v = elim (Bool-cases (ltb (length c.out) 256)) [
  | inl room ↦ rw room (
    record {
      bounded = ground (arith, room, length-append c.out (f ∷ []));
      dropped_closed = v.dropped_closed;
    },
    inl (ground (arith, room), refl, refl),
  )
  | inr no_room ↦ elim (Bool-cases (leb 64 (c.dropped + 1))) [
    | inl slow ↦
        rw (no_room, slow)
          (
            record { bounded = v.bounded; dropped_closed = λ h. refl },
            inr (ground (arith, no_room), refl, refl, refl, refl),
          )
    | inr fast ↦
        rw (no_room, fast)
          (
            record { bounded = v.bounded; dropped_closed = λ h. absurd (ground (arith, fast, h)) },
            inr (ground (arith, no_room), refl, refl, refl, refl),
          )
  ]
]

-- A broadcast answers with the number of the approved members besides the sender, whatever
-- became of the frames: a member without a connection or with a full queue counts as well.
pub broadcast_to-count :
    (exclude : String) (f : Packet) (vs : List OnlineMember) (h : Hub)
    → (broadcast_to exclude f vs h).1 ≡ count (λ v. not (is_left_out exclude v)) vs
unfolding broadcast_to count
broadcast_to-count exclude f [] h = refl
broadcast_to-count exclude f (v ∷ vs) h = elim (Bool-cases (is_left_out exclude v)) [
  | inl out ↦ rw out (broadcast_to-count exclude f vs h)
  | inr stays ↦
      rw (stays, broadcast_to-count exclude f vs (send_if f (pick_all f v) h).0) (omega arith)
]

send_if-elsewhere :
    (f : Packet) (o : Option ℕ) (p : ℕ) (h : Hub)
    → o ≢ some p
    → (send_if f o h).0.conns p ≡ h.conns p
send_if-elsewhere f none p h n = refl
send_if-elsewhere f (some q) p h n = elim (Bool-cases (q == p)) [
  | inl e ↦ absurd (n (ap some (ground (arith, e))))
  | inr e ↦ rw e refl
]

-- A broadcast leaves every connection alone but those of the approved members besides the sender.
pub broadcast_to-elsewhere :
    (exclude : String) (f : Packet) (vs : List OnlineMember) (p : ℕ) (h : Hub)
    → All (λ v. is_left_out exclude v ≡ false → pick_all f v ≢ some p) vs
    → (broadcast_to exclude f vs h).0.conns p ≡ h.conns p
unfolding broadcast_to
broadcast_to-elsewhere exclude f [] p h others = refl
broadcast_to-elsewhere exclude f (v ∷ vs) p h others = elim (Bool-cases (is_left_out exclude v)) [
  | inl out ↦ rw out (broadcast_to-elsewhere exclude f vs p h others.1)
  | inr stays ↦ rw stays (
      broadcast_to-elsewhere exclude f vs p (send_if f (pick_all f v) h).0 others.1
      ∙ send_if-elsewhere f (pick_all f v) p h (others.0 stays))
]
