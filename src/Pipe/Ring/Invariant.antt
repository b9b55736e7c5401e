-- ===== src/Pipe/Ring/Invariant.antt =====
-- The representation invariant of `PipeRingBuffer`: no access out of the array, and a status that
-- agrees with the two indices.
use freeos.Prelude.{ℕ, ◌+◌, ◌≤◌, ◌<◌, ◌≡◌, refl, ◌≢◌, arith, length, length-set, length-replicate}
use freeos.Pipe.Ring.{
  Status, full, empty, normal, ring_buffer_size, PipeRingBuffer, new, write_byte, read_byte,
  available_read, available_write,
}

-- What the status says of the indices.
abbrev Agrees : Status → ℕ → ℕ → Type 0
Agrees full head tail = head ≡ tail
Agrees empty head tail = head ≡ tail
Agrees normal head tail = head ≢ tail

pub record IsValid (r : PipeRingBuffer) : Type 0 where
  pub size : length r.arr ≡ ring_buffer_size
  pub head_in : r.head < ring_buffer_size
  pub tail_in : r.tail < ring_buffer_size
  pub agrees : Agrees r.status r.head r.tail

pub new-IsValid : IsValid new
unfolding new
new-IsValid = record {
  size = length-replicate {A = ℕ} ring_buffer_size 0;
  head_in = omega arith;
  tail_in = omega arith;
  agrees = refl;
}

-- A byte is written in a full ring only by mistake; the callers write while space is available.
pub write_byte-IsValid : {r : PipeRingBuffer} (byte : ℕ) → IsValid r → IsValid (write_byte r byte)
unfolding write_byte
write_byte-IsValid {r} byte v = ground (arith, length-set r.arr r.tail byte)

pub read_byte-IsValid : {r : PipeRingBuffer} → IsValid r → IsValid (read_byte r).1
unfolding read_byte
read_byte-IsValid v = ground arith

available_read-le : {r : PipeRingBuffer} → IsValid r → available_read r ≤ ring_buffer_size
unfolding available_read
available_read-le v = ground arith

-- What can be read and what can be written make up the whole ring.
pub available_read-add-available_write :
    {r : PipeRingBuffer} → IsValid r → available_read r + available_write r ≡ ring_buffer_size
unfolding available_read available_write
available_read-add-available_write v = ground arith

pub available_read-write_byte :
    {r : PipeRingBuffer} (byte : ℕ)
    → IsValid r
    → available_write r ≢ 0
    → available_read (write_byte r byte) ≡ available_read r + 1
unfolding available_read available_write write_byte
available_read-write_byte byte v h = ground arith

pub available_read-read_byte :
    {r : PipeRingBuffer}
    → IsValid r
    → available_read r ≢ 0
    → available_read (read_byte r).1 + 1 ≡ available_read r
unfolding available_read read_byte
available_read-read_byte v h = ground arith
