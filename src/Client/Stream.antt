-- ===== src/Client/Stream.antt =====
-- pkg/sessionclient/stream.go: one logical stream between two members. The channel `in` is the list
-- of what it holds; a receive from it that would block gives none. The connection that carries the
-- frames is a parameter of the writes.
pub mod Behind
pub mod Arrival
pub mod Delivery
pub mod Chunks
use p2p_server.Base.{
  ℕ, zero, suc, ◌+◌, ◌-◌, ◌%◌, Bool, true, false, not, ◌&&◌, ◌||◌, List, [], ◌∷◌, ◌++◌, Option,
  none, some, Result, ok, err, ltb, leb, ◌==◌, if◌then◌else◌, length, take, drop, ℕ_discrete,
}
use p2p_server.Base.Dict.{lookup, insert, erase}

abbrev pub Bytes : Type 0
Bytes = List ℕ

-- `ErrStreamClosed` and `ErrStreamReset`; the second with what it says.
pub data StreamError : Type 0 where
  stream_closed : StreamError
  reset_locally reset_by_peer overflow : StreamError

abbrev pub max_reorder_buffer : ℕ
max_reorder_buffer = 256

abbrev pub max_stream_chunk : ℕ
max_stream_chunk = 16384

-- `make(chan []byte, 64)`
abbrev pub in_capacity : ℕ
in_capacity = 64

pub record Stream : Type 0 where
  pub send_seq : ℕ
  pub recv_next : ℕ
  pub recv_buf : List (ℕ × Bytes)
  pub inbox : List Bytes
  pub closed : Bool
  pub close_err : Option StreamError

-- `newStream`
unfoldable pub new_stream : Stream
new_stream = record {
  send_seq = 0;
  recv_next = 0;
  recv_buf = [];
  inbox = [];
  closed = false;
  close_err = none;
}

-- `push`
unfoldable pub push : Bytes → Stream → Stream
push p s =
    if ltb (length s.inbox) in_capacity
    then record s { inbox = s.inbox ++ p ∷ [] }
    else record s { close_err = elim s.close_err [ none ↦ some overflow | some e ↦ some e ] }

-- `recvNext++` on a uint16.
abbrev pub next_seq : ℕ → ℕ
next_seq n = (n + 1) % 65536

-- The loop of `deliver` over the frames that have become due, with the rounds that are left.
unfoldable pub drain : ℕ → Stream → Stream
drain zero s = s
drain (suc rounds) s = elim (lookup ℕ_discrete s.recv_next s.recv_buf) [
  | none ↦ s
  | some p ↦ drain rounds (
      push p (record s {
        recv_buf = erase ℕ_discrete s.recv_next s.recv_buf;
        recv_next = next_seq s.recv_next;
      }))
]

-- `int16(k - recvNext)`, moved up by 32768.
abbrev pub distance : ℕ → ℕ → ℕ
distance next k = ((k + 65536 - next) % 65536 + 32768) % 65536

-- The loop that looks for the oldest frame.
unfoldable pub oldest : ℕ → Option ℕ → List (ℕ × Bytes) → Option ℕ
oldest next best [] = best
oldest next none ((k, p) ∷ m) = oldest next (some k) m
oldest next (some b) ((k, p) ∷ m) =
    oldest next (some (if ltb (distance next k) (distance next b) then k else b)) m

-- What a full buffer loses.
unfoldable pub make_room : Stream → Stream
make_room s =
    if leb max_reorder_buffer (length s.recv_buf)
    then elim (oldest s.recv_next none s.recv_buf) [
      | none ↦ s
      | some k ↦ record s { recv_buf = erase ℕ_discrete k s.recv_buf }
    ]
    else s

-- Each round of `drain` takes one of at most 65536 keys from the buffer.
unfoldable pub deliver : ℕ → Bytes → Stream → Stream
deliver seq p s =
    if s.recv_next == seq
    then drain 65537 (push p (record s { recv_next = next_seq s.recv_next }))
    else (let t = make_room s in record t { recv_buf = insert ℕ_discrete seq p t.recv_buf })

-- `Read` with room for `n` bytes: the bytes, or the error, or none where it waits.
unfoldable pub read : ℕ → Stream → Option (Result StreamError Bytes) × Stream
read n s = elim s.inbox [
  | p ∷ rest ↦
      let t : Stream = record s { inbox = rest } in
      (
        some (ok (take n p)),
        if ltb n (length p) && ltb (length rest) in_capacity
            then record t { inbox = rest ++ drop n p ∷ [] }
            else t,
      )
  | [] ↦
      if s.closed
      then (some (err (elim s.close_err [ none ↦ stream_closed | some e ↦ e ])), s)
      else (none, s)
]

-- `ReadMessage`
unfoldable pub read_message : Stream → Option (Result StreamError Bytes) × Stream
read_message s = elim s.inbox [
  | p ∷ rest ↦ (some (ok p), record s { inbox = rest })
  | [] ↦
      if s.closed
      then (some (err (elim s.close_err [ none ↦ stream_closed | some e ↦ e ])), s)
      else (none, s)
]

-- `markRemoteClosed`; `once` has run when the stream is closed.
unfoldable pub mark_remote_closed : Bool → Stream → Stream
mark_remote_closed reset s = record s {
  close_err =
      if reset
      then some reset_by_peer
      else elim s.close_err [ none ↦ some stream_closed | some e ↦ some e ];
  closed = true;
}

-- `Close` and `Reset`: the flag of the frame sent to the peer, if any, and the stream.
unfoldable pub close : Stream → Option Bool × Stream
close s =
    if s.closed
    then (none, s)
    else (some false, record s { close_err = some stream_closed; closed = true })

unfoldable pub reset : Stream → Option Bool × Stream
reset s =
    if s.closed
    then (none, s)
    else (some true, record s { close_err = some reset_locally; closed = true })

module _ {E : Type 0} (send : ℕ → Bytes → Option E) where
  -- The loop of `Write` over the bytes that are left, with the rounds that are left: the bytes
  -- written, the error, the frames sent and the next sequence number.
  unfoldable pub write_from : ℕ → ℕ → ℕ → Bytes → ℕ × Option E × List (ℕ × Bytes) × ℕ
  write_from zero seq total p = (total, none, [], seq)
  write_from (suc rounds) seq total [] = (total, none, [], seq)
  write_from (suc rounds) seq total (b ∷ p) =
      let chunk = take max_stream_chunk (b ∷ p) in
      elim (send seq chunk) [
        | some e ↦ (total, some e, [], next_seq seq)
        | none ↦
            let (n, e, sent, seq') =
              write_from rounds (next_seq seq) (total + length chunk)
                (drop max_stream_chunk (b ∷ p)) in
            (n, e, (seq, chunk) ∷ sent, seq')
      ]
