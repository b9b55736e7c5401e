-- ===== src/Pipe/End/Exact.antt =====
-- `Pipe::write` of exactly as many bytes as there is space for.
use freeos.Prelude.{
  ℕ, zero, suc, ◌+◌, ◌≡◌, refl, ap, ◌≢◌, false, List, [], ◌∷◌, ◌++◌, none, arith, length,
  length-append, replicate, ◌==◌,
}
use freeos.Pipe.Ring.{PipeRingBuffer, write_byte, available_write}
use freeos.Pipe.Ring.Invariant.{IsValid, available_read-add-available_write}
use freeos.Pipe.Ring.Queue.{contents, length-contents}
use freeos.Pipe.End.{Shared, closed, partial, write_bytes, again, write_round, write_loop}
use freeos.Pipe.End.Write.{Wrote, write_bytes-Wrote}

write_bytes_exact :
    (n : ℕ) (rest : List ℕ) (before : ℕ) (r : PipeRingBuffer)
    → length rest ≡ n
    → (after : ℕ) × (r' : PipeRingBuffer) × (write_bytes n rest before r ≡ partial [] after r')
unfolding write_bytes
write_bytes_exact zero [] before r h = (before, r, refl)
write_bytes_exact zero (b ∷ rest) before r h = absurd (omega arith)
write_bytes_exact (suc n) [] before r h = absurd (omega arith)
write_bytes_exact (suc n) (b ∷ rest) before r h =
    write_bytes_exact n rest (before + 1) (write_byte r b) (omega arith)

-- A full pipe whose other end is open.
write_round_full :
    (s : Shared) (rest : List ℕ) (before : ℕ)
    → available_write s.ring ≡ 0
    → closed s ≡ false
    → write_round s rest before ≡ again rest before s
unfolding write_round
write_round_full s rest before e c = rw (e, c)

write_loop_stuck :
    (n : ℕ) (s : Shared) (rest : List ℕ) (before : ℕ)
    → available_write s.ring ≡ 0
    → closed s ≡ false
    → write_loop (replicate n (λ t. t)) s rest before ≡ none
unfolding write_loop
write_loop_stuck zero s rest before e c = rw (write_round_full s rest before e c, write_loop)
write_loop_stuck (suc n) s rest before e c =
    rw (write_round_full s rest before e c, write_loop) (write_loop_stuck n s rest before e c)

full_of_lengths :
    {r r' : PipeRingBuffer} (sent : List ℕ)
    → IsValid r
    → IsValid r'
    → contents r' ≡ contents r ++ sent
    → length sent ≡ available_write r
    → available_write r' ≡ 0
full_of_lengths {r} {r'} sent v v' e l = omega (
  arith,
  ap length e,
  length-append (contents r) sent,
  length-contents r,
  length-contents r',
  available_read-add-available_write v,
  available_read-add-available_write v',
)

write_round_exact :
    (s : Shared) (rest : List ℕ) (before : ℕ)
    → IsValid s.ring
    → length rest ≡ available_write s.ring
    → rest ≢ []
    → (after : ℕ) × (r' : PipeRingBuffer) × (write_round s rest before
        ≡ again [] after (record s { ring = r' }))
      × (available_write r' ≡ 0)
unfolding write_round
write_round_exact s [] before v l ne = absurd (ne refl)
write_round_exact s (b ∷ rest) before v l ne =
    let (after, r', e) = write_bytes_exact (available_write s.ring) (b ∷ rest) before s.ring l in
    let w : Wrote s.ring (b ∷ rest) before (available_write s.ring) (partial [] after r') =
      rw e at (write_bytes-Wrote (available_write s.ring) (b ∷ rest) before v (omega arith)) in
    let some_space : (available_write s.ring == 0) ≡ false = ground arith in
    (after, r', rw (some_space, e), full_of_lengths w.0.sent v w.0.valid w.0.queued w.1)

-- A write of exactly as many bytes as there is space for puts them all into the ring, and then
-- waits for space that it does not need: with the other end open it does not return for as long as
-- nobody else touches the pipe.
pub write_loop_exact_hangs :
    (n : ℕ) (s : Shared) (rest : List ℕ) (before : ℕ)
    → IsValid s.ring
    → closed s ≡ false
    → length rest ≡ available_write s.ring
    → rest ≢ []
    → write_loop (replicate n (λ t. t)) s rest before ≡ none
unfolding write_loop
write_loop_exact_hangs zero s rest before v c l ne =
    let (after, r', e, full_now) = write_round_exact s rest before v l ne in rw (e, write_loop)
write_loop_exact_hangs (suc n) s rest before v c l ne =
    let (after, r', e, full_now) = write_round_exact s rest before v l ne in
    rw (e, write_loop) (write_loop_stuck n (record s { ring = r' }) [] after full_now c)
