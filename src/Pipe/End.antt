-- ===== src/Pipe/End.antt =====
-- api/src/file/pipe.rs: `Pipe`, one end of a pipe, and its `FileLike` methods. The two ends share
-- the ring behind its lock and the count of its owners (`Arc::strong_count`).
--
-- A blocking method is a loop that takes the lock afresh in every round. What the other tasks do to
-- the shared state between two rounds is a schedule, a list of functions; the loop returns `none`
-- if it still waits when the schedule ends.
pub mod Read
pub mod Write
pub mod Exact
use freeos.Prelude.{
  ℕ, zero, suc, ◌+◌, min, Bool, true, false, not, ◌&&◌, List, [], ◌∷◌, Option, none, some, ltb,
  ◌==◌, if◌then◌else◌,
}
use freeos.Prelude.Errors.{LinuxError, LinuxResult, ok, err, eperm, epipe}
use freeos.Pipe.Ring.{PipeRingBuffer, new, write_byte, read_byte, available_read, available_write}

pub record Shared : Type 0 where
  pub ring : PipeRingBuffer
  pub strong_count : ℕ

pub record Pipe : Type 0 where
  pub readable : Bool

abbrev pub Schedule : Type 0
Schedule = List (Shared → Shared)

-- `Pipe::new`: the read end, the write end and what they share.
unfoldable new_pipe : Pipe × Pipe × Shared
unfolding new
new_pipe = (
  record { readable = true },
  record { readable = false },
  record { ring = new; strong_count = 2 },
)

abbrev pub writable : Pipe → Bool
writable p = not p.readable

abbrev pub closed : Shared → Bool
closed s = s.strong_count == 1

unfoldable available_data : Shared → ℕ
available_data s = available_read s.ring

-- `for c in buf.iter_mut().take(read_size)`: the bytes that go to the buffer.
unfoldable pub read_bytes : ℕ → PipeRingBuffer → List ℕ × PipeRingBuffer
read_bytes zero r = ([], r)
read_bytes (suc n) r = let (c, r') = read_byte r in let (cs, r'') = read_bytes n r' in (c ∷ cs, r'')

-- One round of the loop in `read`.
pub data ReadRound : Type 0 where
  reads : List ℕ → Shared → ReadRound
  waits : ReadRound

abbrev pub delivered : Shared → List ℕ × PipeRingBuffer → ReadRound
delivered s (bytes, r) = reads bytes (record s { ring = r })

unfoldable pub read_round : Shared → ℕ → ReadRound
read_round s len =
    let read_size = min (available_read s.ring) len in
    if read_size == 0
    then if closed s then reads [] s else waits
    else delivered s (read_bytes read_size s.ring)

unfoldable pub read_loop : Schedule → Shared → ℕ → Option (List ℕ × Shared)
read_loop [] s len = elim (read_round s len) [ reads bytes s' ↦ some (bytes, s') | waits ↦ none ]
read_loop (others ∷ later) s len = elim (read_round s len) [
  | reads bytes s' ↦ some (bytes, s')
  | waits ↦ read_loop later (others s) len
]

abbrev pub returned : Option (List ℕ × Shared) → Option (LinuxResult (List ℕ) × Shared)
returned none = none
returned (some (bytes, s)) = some (ok bytes, s)

-- `read` into a buffer of `len` bytes.
unfoldable pub read : Pipe → Schedule → Shared → ℕ → Option (LinuxResult (List ℕ) × Shared)
read p later s len =
    if not p.readable
    then some (err eperm, s)
    else if len == 0
    then some (ok [], s)
    else returned (read_loop later s len)

-- `for _ in 0..loop_write`, with the bytes of `buf` that are still to be written.
pub data Chunk : Type 0 where
  complete : ℕ → PipeRingBuffer → Chunk
  partial : List ℕ → ℕ → PipeRingBuffer → Chunk

unfoldable pub write_bytes : ℕ → List ℕ → ℕ → PipeRingBuffer → Chunk
write_bytes zero rest write_size r = partial rest write_size r
write_bytes (suc n) [] write_size r = complete write_size r
write_bytes (suc n) (b ∷ rest) write_size r = write_bytes n rest (write_size + 1) (write_byte r b)

-- One round of the loop in `write`.
pub data WriteRound : Type 0 where
  writes : ℕ → Shared → WriteRound
  again : List ℕ → ℕ → Shared → WriteRound

abbrev pub after_chunk : Shared → Chunk → WriteRound
after_chunk s (complete write_size r) = writes write_size (record s { ring = r })
after_chunk s (partial rest write_size r) = again rest write_size (record s { ring = r })

unfoldable pub write_round : Shared → List ℕ → ℕ → WriteRound
write_round s rest write_size =
    let loop_write = available_write s.ring in
    if loop_write == 0
    then if closed s then writes write_size s else again rest write_size s
    else after_chunk s (write_bytes loop_write rest write_size s.ring)

pub write_loop : Schedule → Shared → List ℕ → ℕ → Option (ℕ × Shared)
write_loop [] s rest write_size = elim (write_round s rest write_size) [
  | writes n s' ↦ some (n, s')
  | again _ _ _ ↦ none
]
write_loop (others ∷ later) s rest write_size = elim (write_round s rest write_size) [
  | writes n s' ↦ some (n, s')
  | again rest' write_size' s' ↦ write_loop later (others s') rest' write_size'
]

abbrev pub counted : Option (ℕ × Shared) → Option (LinuxResult ℕ × Shared)
counted none = none
counted (some (n, s)) = some (ok n, s)

unfoldable pub write : Pipe → Schedule → Shared → List ℕ → Option (LinuxResult ℕ × Shared)
write p later s [] =
    if not (writable p)
    then some (err eperm, s)
    else if closed s
    then some (err epipe, s)
    else some (ok 0, s)
write p later s (b ∷ buf) =
    if not (writable p)
    then some (err eperm, s)
    else if closed s
    then some (err epipe, s)
    else counted (write_loop later s (b ∷ buf) 0)

pub record PollState : Type 0 where
  pub can_read : Bool
  pub can_write : Bool

unfoldable pub poll : Pipe → Shared → PollState
poll p s = record {
  can_read = p.readable && ltb 0 (available_read s.ring);
  can_write = writable p && ltb 0 (available_write s.ring);
}
