-- ===== src/Io/Transfer/Streams.antt =====
-- `sys_copy_file_range` between files that are streams.
use freeos.Prelude.{ℕ, ◌≡◌, false, List, ◌==◌}
use freeos.Prelude.Errors.{LinuxResult, ok, err}
use freeos.Io.{Files, IsBounded}
use freeos.Io.Transfer.{always, Memory, transfer, copy_fetch, copy_store, sys_copy_file_range, kept}
use freeos.Io.Transfer.Loop.{AtMost}
use freeos.Io.Transfer.Ends.{sys_copy_file_range-AtMost}
use freeos.Io.Transfer.Moves.{Fetched, Stored, Moves, transfer-Moves}

-- A file that is read as a stream, and one that takes what is written: the laws of `read` and `write`
-- of axio at an open file, for what `source` and `sink` show of the state.
module _ (f : Files) (source sink : f.State → List ℕ) where
  open f use {State, File, read, write, write_at, available_data}

  pub record IsSource (h : File) : Type 0 where
    pub reads : (n : ℕ) (s : State) → Fetched source sink s (read h n s)

  pub record IsSink (h : File) : Type 0 where
    pub writes : (bytes : List ℕ) (s : State) → Stored source sink bytes s (write h bytes s)

  abbrev pub source_of : Memory f → List ℕ
  source_of m = source m.files

  abbrev pub sink_of : Memory f → List ℕ
  sink_of m = sink m.files

  kept-Fetched :
      (m : Memory f) (r : LinuxResult (List ℕ) × State)
      → Fetched source sink m.files r
      → Fetched source_of sink_of m (kept f m r)
  kept-Fetched m (ok bytes, s) h = h
  kept-Fetched m (err e, s) h = h

  kept-Stored :
      (m : Memory f) (bytes : List ℕ) (r : LinuxResult ℕ × State)
      → Stored source sink bytes m.files r
      → Stored source_of sink_of bytes m (kept f m r)
  kept-Stored m bytes (ok n, s) h = h
  kept-Stored m bytes (err e, s) h = h

  module _ (i o : File) (is_source : IsSource i) (is_sink : IsSink o) (b : IsBounded f) where
    copy_lem :
        (len : ℕ) (m : Memory f)
        → Moves source_of sink_of 0 m
            (transfer (copy_fetch f i 0) (always (copy_store f o 0)) len m)
    unfolding copy_fetch copy_store
    copy_lem len m =
        transfer-Moves (copy_fetch f i 0) (copy_store f o 0) source_of sink_of
          (record {
            fetches = λ n s. kept-Fetched s (read i n s.files) (is_source.reads n s.files);
            stores = λ bytes s.
                kept-Stored s bytes (write o bytes s.files) (is_sink.writes bytes s.files);
          })
          len m

    -- `sys_copy_file_range` between two different open files at their own positions comes to an end, and
    -- counts at most `len` bytes: the bytes written are the first of
    -- those that were to be read, in order, and their number is the result. Those behind them that were
    -- read and that the second file did not take are lost.
    pub sys_copy_file_range-Moves :
        (fd_in fd_out len : ℕ) (m : Memory f)
        → (fd_in == fd_out) ≡ false
        → f.file_from_fd fd_in m.files ≡ ok i
        → f.file_from_fd fd_out m.files ≡ ok o
        → let result = sys_copy_file_range f fd_in 0 fd_out 0 len m in
          AtMost len result × Moves source_of sink_of 0 m result
    unfolding sys_copy_file_range
    sys_copy_file_range-Moves fd_in fd_out len m other from to = (
      sys_copy_file_range-AtMost f b fd_in 0 fd_out 0 len m,
      rw (other, from, to) (copy_lem len m),
    )
