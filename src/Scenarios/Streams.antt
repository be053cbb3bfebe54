-- ===== src/Scenarios/Streams.antt =====
-- Examples of the stream's theorems.
use p2p_server.Base.{ℕ, ◌≡◌, refl, [], ◌∷◌, Option, none, arith, true, false, zero, suc, ◌<◌}
use p2p_server.Client.Stream.{Bytes, Stream, new_stream}
use p2p_server.Client.Stream.Behind.{messages, has}
use p2p_server.Client.Stream.Delivery.{deliver_all, starting, inbox-deliver_all}

abbrev message : ℕ → Bytes
message j = j ∷ []

all_three : (j : ℕ) → j < 3 → has (2 ∷ 0 ∷ 1 ∷ []) j ≡ true
all_three zero l = refl
all_three (suc zero) l = refl
all_three (suc (suc zero)) l = refl
all_three (suc (suc (suc j))) l = absurd (omega arith)

-- Three frames, numbered 65534, 65535 and 0, of which the last comes first.
inbox-deliver_all_example :
    (deliver_all 65534 message (2 ∷ 0 ∷ 1 ∷ []) (starting 65534 message new_stream)).inbox
    ≡ messages 65534 message 3
inbox-deliver_all_example =
    inbox-deliver_all 65534 message (2 ∷ 0 ∷ 1 ∷ []) 3 new_stream (omega arith) (omega arith)
      (omega arith) (omega arith) all_three

abbrev taken : ℕ → Bytes → Option ℕ
taken k p = none

-- Two messages in the queue, and a buffer of one byte.
abbrev queued : Stream
queued = record {
  send_seq = 0;
  recv_next = 2;
  recv_buf = [];
  inbox = (7 ∷ 8 ∷ []) ∷ (9 ∷ []) ∷ [];
  closed = false;
  close_err = none;
}
