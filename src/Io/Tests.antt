-- ===== src/Io/Tests.antt =====
-- Files that are streams: `read` gives the next bytes, and `write` takes at most three bytes.
use freeos.Prelude.{
  ℕ, zero, suc, ◌≤◌, ◌≡◌, refl, Bool, Option, true, false, List, [], ◌∷◌, ◌++◌, some, arith, ◌==◌,
  length, ltb, none, ◌^◌, Bool-cases, inl, inr, take, drop, min, sym, take-append-drop,
  if◌then◌else◌,
}
use freeos.Prelude.Errors.{LinuxResult, ok, err, ebadf, einval}
use freeos.Io.{Files, IsBounded, WriteBuf}
use freeos.Io.Vector.{sys_writev}
use freeos.Io.Vector.Written.{Wrote, contents, sys_writev-Wrote}
use freeos.Io.Transfer.{
  ends, Memory, sys_copy_file_range, transfer, transfer_loop, round, copy_fetch, copy_store,
  default_buffer_size, sys_splice, splice_pipe_to_file,
}
use freeos.Io.Transfer.Loop.{AtMost, AtMostOr}
use freeos.Io.Transfer.Ends.{WaitsIn, sys_splice-AtMost}
use freeos.Io.Transfer.Placed.{place}
use freeos.Io.Transfer.Spliced.{IsRegular, Splices, splice_pipe_to_file-Splices}
use freeos.Io.Transfer.Moves.{Moves}
use freeos.Io.Transfer.Streams.{IsSource, IsSink, source_of, sink_of, sys_copy_file_range-Moves}

record Disk : Type 0 where
  incoming : List ℕ
  outgoing : List ℕ

abbrev get_some : ℕ → Disk → LinuxResult (List ℕ) × Disk
get_some n d = (ok (take n d.incoming), record d { incoming = drop n d.incoming })

abbrev put_some : List ℕ → Disk → LinuxResult ℕ × Disk
put_some bytes d = (
  ok (min 3 (length bytes)),
  record d { outgoing = d.outgoing ++ take (min 3 (length bytes)) bytes },
)

abbrev put_if : Bool → ℕ → List ℕ → Disk → LinuxResult ℕ × Disk
put_if true n content d = (ok n, record d { outgoing = content })
put_if false n content d = (err einval, d)

abbrev placed_at : ℕ → List ℕ → Disk → List ℕ
placed_at o bytes d = place o (take (min 3 (length bytes)) bytes) d.outgoing

abbrev put_at : ℕ → List ℕ → Disk → LinuxResult ℕ × Disk
put_at o bytes d =
    put_if (ltb (length (placed_at o bytes d)) (2 ^ 63)) (min 3 (length bytes))
      (placed_at o bytes d) d

abbrev put_in_pipe : Bool → List ℕ → Disk → Option (LinuxResult ℕ × Disk)
put_in_pipe true bytes d = some (put_some bytes d)
put_in_pipe false bytes d = none

-- File 0 is the pipe, the others are files.
abbrev streams : Files
streams = record {
  State = Disk;
  File = ℕ;
  get_file_like = λ fd d. ok fd;
  file_from_fd = λ fd d. if fd == 0 then err ebadf else ok fd;
  pipe_from_fd = λ fd d. if fd == 0 then ok fd else err ebadf;
  read = λ h. get_some;
  write = λ h. put_some;
  read_at = λ h o. get_some;
  write_at = λ h o. put_at o;
  write_pipe = λ h bytes d. put_in_pipe (ltb (length d.outgoing) 8) bytes d;
  seek = λ h p d. (ok 0, d);
  truncate = λ h n d. (ok tt, d);
  fsync = λ h d. (ok tt, d);
  size = λ h d. ok (length d.incoming);
  readable = λ h. true;
  writable = λ h. true;
  available_data = λ h d. length d.incoming;
}

get_some_le : (n : ℕ) (xs : List ℕ) → length (take n xs) ≤ n
get_some_le zero xs = omega arith
get_some_le (suc n) [] = omega arith
get_some_le (suc n) (x ∷ xs) = omega (arith, get_some_le n xs)

put_if_le :
    (b : Bool) (m n : ℕ) (bytes content : List ℕ) (d : Disk)
    → m ≤ length bytes
    → (put_if b m content d).0 ≡ ok n
    → n ≤ length bytes
put_if_le true m n bytes content d small e = ground arith
put_if_le false m n bytes content d small e = cc

put_in_pipe_le :
    (b : Bool) (n : ℕ) (bytes : List ℕ) (d d' : Disk)
    → put_in_pipe b bytes d ≡ some (ok n, d')
    → n ≤ length bytes
put_in_pipe_le true n bytes d d' e = ground arith
put_in_pipe_le false n bytes d d' e = cc

streams-IsBounded : IsBounded streams
streams-IsBounded = record {
  read_le = λ h n s bytes e. ground (arith, get_some_le n s.incoming);
  read_at_le = λ h o n s bytes e. ground (arith, get_some_le n s.incoming);
  write_le = λ h bytes s n e. ground arith;
  write_at_le = λ h o bytes s n e.
      put_if_le (ltb (length (placed_at o bytes s)) (2 ^ 63)) (min 3 (length bytes)) n bytes
        (placed_at o bytes s) s (omega arith) e;
  write_pipe_le = λ h bytes s s' n e. put_in_pipe_le (ltb (length s.outgoing) 8) n bytes s s' e;
}

abbrev memory : Memory streams
memory = record {
  files = record { incoming = 1 ∷ 2 ∷ 3 ∷ 4 ∷ 5 ∷ []; outgoing = 9 ∷ [] };
  cell = λ p. ok 0;
}

is_source : (h : ℕ) → IsSource streams (λ d. d.incoming) (λ d. d.outgoing) h
is_source h = record { reads = λ n s. (sym (take-append-drop n s.incoming), refl) }

is_sink : (h : ℕ) → IsSink streams (λ d. d.incoming) (λ d. d.outgoing) h
is_sink h = record { writes = λ bytes s. (omega arith, refl, refl) }

-- Five bytes are read and three written: two are lost.
copy_loses :
    sys_copy_file_range streams 1 0 2 0 10 memory
    ≡ ends
        (ok 3)
        (record memory { files = record { incoming = []; outgoing = 9 ∷ 1 ∷ 2 ∷ 3 ∷ [] } })
unfolding sys_copy_file_range transfer transfer_loop round copy_fetch copy_store default_buffer_size
copy_loses = refl

sys_copy_file_range-Moves_example :
    let result = sys_copy_file_range streams 1 0 2 0 10 memory in
    AtMost 10 result
    × Moves
        (source_of streams (λ d. d.incoming) (λ d. d.outgoing))
        (sink_of streams (λ d. d.incoming) (λ d. d.outgoing))
        0
        memory
        result
sys_copy_file_range-Moves_example =
    sys_copy_file_range-Moves streams (λ d. d.incoming) (λ d. d.outgoing) 1 2 (is_source 1)
      (is_sink 2) streams-IsBounded 1 2 10 memory refl refl refl

is_regular : (h : ℕ) → IsRegular streams (λ d. d.incoming) (λ d. d.outgoing) h
is_regular h = record {
  writes_at = λ o bytes s inside. elim (Bool-cases (ltb (length (placed_at o bytes s)) (2 ^ 63))) [
    | inl small ↦ rw small (omega arith, refl, refl, ground arith)
    | inr large ↦ rw large (refl, refl)
  ];
}

-- The offset is the end of the file, which holds one byte.
abbrev at_end : Memory streams
at_end = record memory { cell = λ p. ok 1 }

splice_pipe_to_file-Splices_example :
    let result = splice_pipe_to_file streams 0 2 8 10 at_end in
    AtMost 10 result × Splices streams (λ d. d.incoming) (λ d. d.outgoing) 8 1 at_end result
splice_pipe_to_file-Splices_example =
    splice_pipe_to_file-Splices streams (λ d. d.incoming) (λ d. d.outgoing) 0 2 (is_source 0)
      (is_regular 2) 8 1 at_end (omega arith) streams-IsBounded 10 refl

sys_splice-AtMost_example :
    AtMostOr (WaitsIn streams streams-IsBounded (ok 0)) 10 (sys_splice streams 1 8 0 0 10 memory)
sys_splice-AtMost_example = sys_splice-AtMost streams streams-IsBounded 1 8 0 0 10 memory

abbrev two_bufs : List WriteBuf
two_bufs =
    record { len = 2; access = ok (5 ∷ 6 ∷ []) }
    ∷ record { len = 4; access = ok (1 ∷ 2 ∷ 3 ∷ 4 ∷ []) }
    ∷ []

sys_writev-Wrote_example :
    Wrote streams
      (λ d. d.outgoing)
      0
      (contents two_bufs)
      memory.files
      (sys_writev streams 1 (ok two_bufs) 2 memory.files)
sys_writev-Wrote_example =
    sys_writev-Wrote streams (λ d. d.outgoing) 1 1 (λ s. refl) (λ bytes s. (omega arith, refl))
      two_bufs 2 memory.files ((refl, refl), ((refl, refl), tt)) (omega arith)
