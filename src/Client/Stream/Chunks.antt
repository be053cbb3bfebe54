-- ===== src/Client/Stream/Chunks.antt =====
-- What `Write` sends, and what `Read` hands out of a message that is longer than its buffer.
use p2p_server.Base.{ℕ, ◌≤◌, ◌≡◌, List, [], ◌∷◌, ◌++◌, length}
use p2p_server.Client.Stream.{Bytes, Stream, max_stream_chunk, next_seq}

-- The bytes of the frames, in the order in which they were sent.
abbrev pub payloads : List (ℕ × Bytes) → Bytes
payloads [] = []
payloads ((seq, p) ∷ frames) = p ++ payloads frames

-- The frames are numbered from `seq` on, and none is longer than a chunk.
abbrev pub AreChunks : ℕ → List (ℕ × Bytes) → Type 0
AreChunks seq [] = Unit {0}
AreChunks seq ((k, p) ∷ frames) =
    (k ≡ seq) × (length p ≤ max_stream_chunk) × AreChunks (next_seq seq) frames
