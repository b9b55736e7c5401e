-- ===== src/Pipe/Ring/Queue.antt =====
-- A valid ring holds a queue: `contents`, oldest byte first.
use freeos.Prelude.{
  ℕ, zero, suc, ◌+◌, ◌-◌, ◌%◌, ◌<◌, ◌≡◌, refl, ◌≢◌, ap, ap₂, ◌∙◌, List, [], ◌∷◌, ◌++◌, arith,
  length, get_or, set, get_or-set_self, get_or-set_ne,
}
use freeos.Pipe.Ring.{
  ring_buffer_size, PipeRingBuffer, new, write_byte, read_byte, available_read, available_write,
}
use freeos.Pipe.Ring.Invariant.{IsValid, available_read-write_byte, available_read-read_byte}

module _ (arr : List ℕ) where
  -- The `n` bytes from index `h` on, going round at the end of the array.
  abbrev window : ℕ → ℕ → List ℕ
  window h zero = []
  window h (suc n) = get_or arr h 0 ∷ window ((h + 1) % ring_buffer_size) n

  length-window : (h n : ℕ) → length (window h n) ≡ n
  length-window h zero = refl
  length-window h (suc n) = ap suc (length-window ((h + 1) % ring_buffer_size) n)

  window_of_ne_zero :
      (h n : ℕ) → n ≢ 0 → window h n ≡ get_or arr h 0 ∷ window ((h + 1) % ring_buffer_size) (n - 1)
  window_of_ne_zero h zero p = absurd (p refl)
  window_of_ne_zero h (suc n) p = ap (λ k. window h (suc k)) (omega arith)

pub contents : PipeRingBuffer → List ℕ
contents r = window r.arr r.head (available_read r)

pub length-contents : (r : PipeRingBuffer) → length (contents r) ≡ available_read r
unfolding contents
length-contents r = length-window r.arr r.head (available_read r)

-- A byte that is put just behind a window extends it.
window-set :
    (arr : List ℕ) (x n h i : ℕ)
    → length arr ≡ ring_buffer_size
    → h < ring_buffer_size
    → n < ring_buffer_size
    → i ≡ (h + n) % ring_buffer_size
    → window (set arr i x) h (suc n) ≡ window arr h n ++ (x ∷ [])
window-set arr x zero h i hs hh hn e =
    let i_is : i ≡ h = omega arith in rw (i_is, get_or-set_self arr h x 0 (omega arith))
window-set arr x (suc n) h i hs hh hn e =
    ap₂ ◌∷◌ (get_or-set_ne arr i h x 0 (omega arith)) (
      window-set arr x n ((h + 1) % ring_buffer_size) i hs (omega arith) (omega arith)
        (omega arith))

tail_lem :
    {r : PipeRingBuffer}
    → IsValid r
    → available_write r ≢ 0
    → (r.tail ≡ (r.head + available_read r) % ring_buffer_size)
      × (available_read r < ring_buffer_size)
unfolding available_read available_write
tail_lem v h = ground arith

-- In a valid ring that is not full, a byte that is written goes to the end of the queue.
pub contents-write_byte :
    {r : PipeRingBuffer} (byte : ℕ)
    → IsValid r
    → available_write r ≢ 0
    → contents (write_byte r byte) ≡ contents r ++ (byte ∷ [])
unfolding contents write_byte
contents-write_byte {r} byte v h =
    let t = tail_lem v h in
    ap (window (set r.arr r.tail byte) r.head) (written)
    ∙ window-set r.arr byte (available_read r) r.head r.tail v.size v.head_in t.1 t.0
  where
    written : available_read (write_byte r byte) ≡ suc (available_read r)
    written = omega (arith, available_read-write_byte byte v h)

-- In a valid ring that is not empty, the byte that is read is the first of the queue, and the
-- others stay.
pub contents-read_byte :
    {r : PipeRingBuffer}
    → IsValid r
    → available_read r ≢ 0
    → contents r ≡ (read_byte r).0 ∷ contents (read_byte r).1
unfolding contents read_byte
contents-read_byte {r} v h =
    window_of_ne_zero r.arr r.head (available_read r) h
    ∙ ap (λ k. get_or r.arr r.head 0 ∷ window r.arr ((r.head + 1) % ring_buffer_size) k) rest
  where
    rest : available_read r - 1 ≡ available_read (read_byte r).1
    rest = omega (arith, available_read-read_byte v h)

pub contents-new : contents new ≡ []
unfolding contents new available_read
contents-new = refl
