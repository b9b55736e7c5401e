-- ===== src/Pipe/Ring.antt =====
-- api/src/file/pipe.rs: `PipeRingBuffer`, a ring of 256 bytes with a status that tells the full
-- ring from the empty one. A method that takes `&mut self` returns the new ring.
pub mod Invariant
pub mod Queue
use freeos.Prelude.{ℕ, ◌+◌, ◌-◌, ◌%◌, Bool, List, ltb, ◌==◌, if◌then◌else◌, get_or, set, replicate}

-- `RingBufferStatus`
pub data Status : Type 0 where
  full empty normal : Status

abbrev pub ring_buffer_size : ℕ
ring_buffer_size = 256

pub record PipeRingBuffer : Type 0 where
  pub arr : List ℕ
  pub head : ℕ
  pub tail : ℕ
  pub status : Status

unfoldable pub new : PipeRingBuffer
new = record { arr = replicate ring_buffer_size 0; head = 0; tail = 0; status = empty }

unfoldable pub write_byte : PipeRingBuffer → ℕ → PipeRingBuffer
write_byte r byte =
    let tail' = (r.tail + 1) % ring_buffer_size in
    record r {
      arr = set r.arr r.tail byte;
      tail = tail';
      status = if tail' == r.head then full else normal;
    }

unfoldable pub read_byte : PipeRingBuffer → ℕ × PipeRingBuffer
read_byte r =
    let head' = (r.head + 1) % ring_buffer_size in
    (
      get_or r.arr r.head 0,
      record r { head = head'; status = if head' == r.tail then empty else normal },
    )

unfoldable pub available_read : PipeRingBuffer → ℕ
available_read r = elim r.status [
  | empty ↦ 0
  | _ ↦ if ltb r.head r.tail then r.tail - r.head else r.tail + ring_buffer_size - r.head
]

unfoldable pub available_write : PipeRingBuffer → ℕ
available_write r = elim r.status [ full ↦ 0 | _ ↦ ring_buffer_size - available_read r ]
