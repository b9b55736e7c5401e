-- ===== src/Mpx/Select/Tests.antt =====
-- Descriptors 1 and 2 are asked for reading; 1 is readable, 2 is not open.
use freeos.Prelude.{ℕ, ◌≡◌, true, false, [], ◌∷◌, ◌++◌, arith, replicate, ◌==◌, if◌then◌else◌}
use freeos.Mpx.{Answer, bad, polled}
use freeos.Mpx.Select.{FdSets, nothing_found, no_bits, scan}
use freeos.Mpx.Select.Scan.{every, scan-every}

abbrev two_asked : FdSets
two_asked = record {
  nfds = 3;
  read_bits = (false ∷ true ∷ true ∷ []) ++ replicate 1021 false;
  write_bits = no_bits;
  except_bits = no_bits;
}

abbrev answers : ℕ → Answer
answers fd = if fd == 1 then polled (record { readable = true; writable = false }) else bad

scan-every_example : scan two_asked answers ≡ every two_asked answers 3 0 nothing_found
scan-every_example = scan-every two_asked answers (omega arith)
