-- ===== src/Pipe/Tests.antt =====
-- The pipe's theorems at concrete states, and runs of its functions.
use freeos.Prelude.{
  ℕ, ◌≡◌, refl, ◌≢◌, ◌↔◌, true, false, List, [], ◌∷◌, ◌++◌, none, some, arith, replicate,
  length-replicate,
}
use freeos.Prelude.Errors.{ok, err, eperm, epipe}
use freeos.Pipe.Ring.{
  PipeRingBuffer, new, empty, normal, write_byte, read_byte, available_read, available_write,
}
use freeos.Pipe.Ring.Invariant.{IsValid, new-IsValid}
use freeos.Pipe.End.{
  Shared, read, write, read_loop, write_loop, read_round, write_round, read_bytes, write_bytes,
}
use freeos.Pipe.End.Read.{Reads, read_round-Reads, read_loop_returns, Wakes}
use freeos.Pipe.End.Write.{Writes, Drains, write_round-Writes, write_loop_finishes}
use freeos.Pipe.End.Exact.{write_loop_exact_hangs}
use freeos.Pipe.Stream.{System, start, Reach, here, next, reader, writer, Reach-IsStream, IsStream}

-- Two bytes, 7 and 8, round the end of the array.
abbrev wrapped_ring : PipeRingBuffer
wrapped_ring = record {
  arr = 8 ∷ replicate 254 0 ++ (7 ∷ []);
  head = 255;
  tail = 1;
  status = normal;
}

abbrev wrapped : Shared
wrapped = record { ring = wrapped_ring; strong_count = 2 }

wrapped-IsValid : IsValid wrapped_ring
wrapped-IsValid = record {
  size = refl;
  head_in = omega arith;
  tail_in = omega arith;
  agrees = omega arith;
}

-- 254 bytes are free.
abbrev message : List ℕ
message = replicate 254 5

wrapped_space : available_write wrapped_ring ≡ 254
unfolding available_write available_read
wrapped_space = refl

read_round-Reads_example : Reads wrapped 10 (read_round wrapped 10)
read_round-Reads_example = read_round-Reads wrapped 10 wrapped-IsValid

write_round-Writes_example : Writes wrapped message 0 (write_round wrapped message 0)
write_round-Writes_example = write_round-Writes wrapped message 0 wrapped-IsValid

-- The writer drops its end while a reader waits.
abbrev drop_writer : Shared → Shared
drop_writer s = record s { strong_count = 1 }

abbrev fresh : Shared
fresh = record { ring = new; strong_count = 2 }

read_loop_returns_example :
    (read_loop (drop_writer ∷ []) fresh 4 ≢ none) ↔ Wakes (drop_writer ∷ []) fresh
read_loop_returns_example = read_loop_returns (drop_writer ∷ []) fresh 4 (omega arith)

abbrev emptied : Shared → Shared
emptied s = record s { ring = new }

new_space : available_write new ≡ 256
unfolding available_write available_read new
new_space = refl

emptied-Drains : Drains emptied
emptied-Drains s v = (new-IsValid, omega (arith, new_space))

write_loop_finishes_example :
    (s' : Shared) × (write_loop (emptied ∷ emptied ∷ []) wrapped (1 ∷ 2 ∷ []) 0 ≡ some (2, s'))
write_loop_finishes_example =
    write_loop_finishes (emptied ∷ emptied ∷ []) wrapped (1 ∷ 2 ∷ []) 0 wrapped-IsValid
      (omega (arith, wrapped_space)) (emptied-Drains, (emptied-Drains, tt)) (omega arith)

write_loop_exact_hangs_example : write_loop (replicate 3 (λ t. t)) wrapped message 0 ≡ none
write_loop_exact_hangs_example =
    write_loop_exact_hangs 3 wrapped message 0 wrapped-IsValid refl
      (omega (arith, wrapped_space, length-replicate {A = ℕ} 254 5)) (λ e. cc)

-- A writer's round and a reader's.
busy : System
unfolding write_round write_bytes write_byte read_round read_bytes read_byte new available_write
    available_read
busy = record {
  shared = record {
    ring = record { arr = 4 ∷ 6 ∷ replicate 254 0; head = 1; tail = 2; status = normal };
    strong_count = 2;
  };
  sent = 4 ∷ 6 ∷ [];
  received = 4 ∷ [];
}

busy_reached : Reach start busy
unfolding busy
busy_reached = next {z = _} (next here (writer (4 ∷ 6 ∷ []) 0)) (reader 1)

Reach-IsStream_example : IsStream busy
Reach-IsStream_example = Reach-IsStream busy_reached

read_wrapped :
    read (record { readable = true }) [] wrapped 9
    ≡ some (
      ok (7 ∷ 8 ∷ []),
      record { ring = record wrapped_ring { head = 1; status = empty }; strong_count = 2 },
    )
unfolding read read_loop read_round read_bytes read_byte available_read
read_wrapped = refl

write_to_read_end :
    write (record { readable = true }) [] wrapped (1 ∷ []) ≡ some (err eperm, wrapped)
unfolding write
write_to_read_end = refl

write_without_reader :
    write (record { readable = false }) [] (drop_writer wrapped) (1 ∷ [])
    ≡ some (err epipe, drop_writer wrapped)
unfolding write
write_without_reader = refl
