-- ===== src/Io/Transfer.antt =====
-- api/src/imp/fs/io.rs: `sys_copy_file_range` and `sys_splice`. Their three loops have one shape, a
-- chunk is fetched and then stored, and differ in how they fetch and store. The offsets in user
-- memory are cells at addresses (0 is the null pointer), each with the result of its access check.
pub mod Loop
pub mod Ends
pub mod Moves
pub mod Streams
pub mod Placed
pub mod Spliced
use freeos.Prelude.{
  ℕ, zero, suc, ◌+◌, ◌-◌, ◌%◌, ◌^◌, Bool, true, false, List, [], ◌∷◌, Option, none, some, ◌==◌,
  if◌then◌else◌, ltb, leb, not, length, min,
}
use freeos.Prelude.Errors.{LinuxResult, ok, err, einval, eperm}
use freeos.Prelude.Words.{usize_mod}
use freeos.Io.{Files}

unfoldable pub default_buffer_size : ℕ
default_buffer_size = 8192

-- `a >= b` and `a < 0` at an `i64`.
abbrev pub i64_ge : ℕ → ℕ → Bool
i64_ge a b = leb ((b + 2 ^ 63) % usize_mod) ((a + 2 ^ 63) % usize_mod)

abbrev i64_negative : ℕ → Bool
i64_negative a = leb (2 ^ 63) a

-- One round of a loop: another round with what remains and the total, a result, or a chunk whose store
-- does not return.
pub data Round (S : Type 0) : Type 0 where
  again : ℕ → ℕ → S → Round S
  done : LinuxResult ℕ → S → Round S
  stuck : List ℕ → S → Round S

-- How a call goes: it returns, it blocks for ever in the store of a chunk, or the fuel runs out.
pub data Ending (S : Type 0) : Type 0 where
  ends : LinuxResult ℕ → S → Ending S
  blocks : List ℕ → S → Ending S
  unfinished : Ending S

module _ {S : Type 0} where
  -- A chunk was stored; an error is returned at once.
  abbrev pub after_store : ℕ → ℕ → ℕ → LinuxResult ℕ × S → Round S
  after_store remaining total read (err e, s) = done (err e) s
  after_store remaining total read (ok n, s) =
      if ltb n read then done (ok (total + n)) s else again (remaining - n) (total + n) s

  abbrev pub try_store : ℕ → ℕ → List ℕ → S → Option (LinuxResult ℕ × S) → Round S
  try_store remaining total bytes s none = stuck bytes s
  try_store remaining total bytes s (some r) = after_store remaining total (length bytes) r

  -- No bytes end the loop.
  abbrev pub after_fetch :
      (List ℕ → S → Option (LinuxResult ℕ × S)) → ℕ → ℕ → LinuxResult (List ℕ) × S → Round S
  after_fetch store remaining total (err e, s) = done (err e) s
  after_fetch store remaining total (ok [], s) = done (ok total) s
  after_fetch store remaining total (ok (b ∷ bytes), s) =
      try_store remaining total (b ∷ bytes) s (store (b ∷ bytes) s)

  -- A store that returns at once.
  abbrev pub always : (List ℕ → S → LinuxResult ℕ × S) → List ℕ → S → Option (LinuxResult ℕ × S)
  always store bytes s = some (store bytes s)

module _ {S : Type 0} (fetch : ℕ → S → LinuxResult (List ℕ) × S)
    (store : List ℕ → S → Option (LinuxResult ℕ × S)) where
  unfoldable pub round : ℕ → ℕ → S → Round S
  round remaining total s =
      if remaining == 0
      then done (ok total) s
      else after_fetch store remaining total (fetch (min default_buffer_size remaining) s)

  -- `while remaining > 0`, with fuel.
  unfoldable pub transfer_loop : ℕ → ℕ → ℕ → S → Ending S
  transfer_loop zero remaining total s = unfinished
  transfer_loop (suc fuel) remaining total s = elim (round remaining total s) [
    | again remaining' total' s' ↦ transfer_loop fuel remaining' total' s'
    | done r s' ↦ ends r s'
    | stuck bytes s' ↦ blocks bytes s'
  ]

  -- A round moves a byte or is the last one, so `len + 1` rounds are enough.
  unfoldable pub transfer : ℕ → S → Ending S
  transfer len s = transfer_loop (suc len) len 0 s

module _ (f : Files) where
  open f use {
    State, File, file_from_fd, pipe_from_fd, read, write, write_pipe, read_at, write_at, size,
    readable, writable, available_data,
  }

  pub record Memory : Type 0 where
    pub files : State
    pub cell : ℕ → LinuxResult ℕ

  -- `*offset_ref += bytes`
  abbrev advance : ℕ → ℕ → ℕ → Memory → Memory
  advance p o n m = record m { cell = λ q. if p == q then ok ((o + n) % usize_mod) else m.cell q }

  abbrev pub kept : {A : Type 0} → Memory → LinuxResult A × State → LinuxResult A × Memory
  kept m (r, s) = (r, record m { files = s })

  abbrev pub moved_read :
      ℕ → ℕ → Memory → LinuxResult (List ℕ) × State → LinuxResult (List ℕ) × Memory
  moved_read p o m (err e, s) = (err e, record m { files = s })
  moved_read p o m (ok bytes, s) = (ok bytes, advance p o (length bytes) (record m { files = s }))

  abbrev pub moved_write : ℕ → ℕ → Memory → LinuxResult ℕ × State → LinuxResult ℕ × Memory
  moved_write p o m (err e, s) = (err e, record m { files = s })
  moved_write p o m (ok n, s) = (ok n, advance p o n (record m { files = s }))

  -- A read at the offset behind a pointer, and a write there.
  abbrev pub read_there : File → ℕ → ℕ → Memory → LinuxResult ℕ → LinuxResult (List ℕ) × Memory
  read_there h p n m (err e) = (err e, m)
  read_there h p n m (ok o) = moved_read p o m (read_at h o n m.files)

  pub read_cell : File → ℕ → ℕ → Memory → LinuxResult (List ℕ) × Memory
  read_cell h p n m = read_there h p n m (m.cell p)

  abbrev pub write_there : File → ℕ → List ℕ → Memory → LinuxResult ℕ → LinuxResult ℕ × Memory
  write_there h p bytes m (err e) = (err e, m)
  write_there h p bytes m (ok o) = moved_write p o m (write_at h o bytes m.files)

  pub write_cell : File → ℕ → List ℕ → Memory → LinuxResult ℕ × Memory
  write_cell h p bytes m = write_there h p bytes m (m.cell p)

  unfoldable pub copy_fetch : File → ℕ → ℕ → Memory → LinuxResult (List ℕ) × Memory
  copy_fetch h p n m = if p == 0 then kept m (read h n m.files) else read_cell h p n m

  unfoldable pub copy_store : File → ℕ → List ℕ → Memory → LinuxResult ℕ × Memory
  copy_store h p bytes m = if p == 0 then kept m (write h bytes m.files) else write_cell h p bytes m

  abbrev pub copy_files : LinuxResult File → LinuxResult File → ℕ → ℕ → ℕ → Memory → Ending Memory
  copy_files (err e) out off_in off_out len m = ends (err e) m
  copy_files (ok i) (err e) off_in off_out len m = ends (err e) m
  copy_files (ok i) (ok o) off_in off_out len m =
      transfer (copy_fetch i off_in) (always (copy_store o off_out)) len m

  unfoldable pub sys_copy_file_range : ℕ → ℕ → ℕ → ℕ → ℕ → Memory → Ending Memory
  sys_copy_file_range fd_in off_in fd_out off_out len m =
      if fd_in == fd_out
      then ends (err einval) m
      else copy_files (file_from_fd fd_in m.files) (file_from_fd fd_out m.files) off_in off_out len
          m

  -- An empty pipe ends the loop, closed or not. No other reader takes the data away between the test
  -- and the read, which so does not wait.
  pub pipe_fetch : File → ℕ → Memory → LinuxResult (List ℕ) × Memory
  pipe_fetch pipe n m =
      let available = available_data pipe m.files in
      if available == 0 then (ok [], m) else kept m (read pipe (min n available) m.files)

  pub splice_pipe_to_file : File → File → ℕ → ℕ → Memory → Ending Memory
  splice_pipe_to_file pipe file off_out len m =
      transfer (pipe_fetch pipe) (always (write_cell file off_out)) len m

  -- Behind the end of the file there is nothing to fetch.
  abbrev pub unless_ended :
      File → ℕ → ℕ → Memory → LinuxResult ℕ → LinuxResult ℕ → LinuxResult (List ℕ) × Memory
  unless_ended file p n m (err e) k = (err e, m)
  unless_ended file p n m (ok o) (err e) = (err e, m)
  unless_ended file p n m (ok o) (ok k) = if i64_ge o k then (ok [], m) else read_cell file p n m

  pub file_fetch : File → ℕ → ℕ → Memory → LinuxResult (List ℕ) × Memory
  file_fetch file p n m =
      if p == 0
      then read_cell file p n m
      else unless_ended file p n m (m.cell p) (size file m.files)

  abbrev pub pipe_kept : Memory → Option (LinuxResult ℕ × State) → Option (LinuxResult ℕ × Memory)
  pipe_kept m none = none
  pipe_kept m (some r) = some (kept m r)

  pub pipe_store : File → List ℕ → Memory → Option (LinuxResult ℕ × Memory)
  pipe_store pipe bytes m = pipe_kept m (write_pipe pipe bytes m.files)

  pub splice_file_to_pipe : File → File → ℕ → ℕ → Memory → Ending Memory
  splice_file_to_pipe file pipe off_in len m =
      transfer (file_fetch file off_in) (pipe_store pipe) len m

  -- The test that `sys_splice` makes of an offset: the error, if there is one.
  abbrev pub validate_offset : ℕ → Memory → LinuxResult (Unit {0})
  validate_offset p m =
      if p == 0
      then ok tt
      else elim (m.cell p) [ err e ↦ err e | ok o ↦ if i64_negative o then err einval else ok tt ]

  abbrev pub into_file : File → LinuxResult File → ℕ → ℕ → Memory → Ending Memory
  into_file pipe (err e) off_out len m = ends (err e) m
  into_file pipe (ok file) off_out len m = splice_pipe_to_file pipe file off_out len m

  abbrev pub from_file : File → LinuxResult File → ℕ → ℕ → Memory → Ending Memory
  from_file pipe (err e) off_in len m = ends (err e) m
  from_file pipe (ok file) off_in len m = splice_file_to_pipe file pipe off_in len m

  -- `match (pipe_in, pipe_out)`
  pub spliced : LinuxResult File → LinuxResult File → ℕ → ℕ → ℕ → ℕ → ℕ → Memory → Ending Memory
  spliced (ok pipe) (err e) fd_in off_in fd_out off_out len m =
      if not (readable pipe)
      then ends (err eperm) m
      else if off_out == 0
      then ends (err einval) m
      else into_file pipe (file_from_fd fd_out m.files) off_out len m
  spliced (err e) (ok pipe) fd_in off_in fd_out off_out len m =
      if not (writable pipe)
      then ends (err eperm) m
      else if off_in == 0
      then ends (err einval) m
      else from_file pipe (file_from_fd fd_in m.files) off_in len m
  spliced (ok pipe) (ok pipe') fd_in off_in fd_out off_out len m = ends (err einval) m
  spliced (err e) (err e') fd_in off_in fd_out off_out len m = ends (err einval) m

  abbrev pub validated : LinuxResult (Unit {0}) → LinuxResult (Unit {0}) → LinuxResult (Unit {0})
  validated (err e) second = err e
  validated (ok u) second = second

  abbrev pub splice_checked : LinuxResult (Unit {0}) → ℕ → ℕ → ℕ → ℕ → ℕ → Memory → Ending Memory
  splice_checked (err e) fd_in off_in fd_out off_out len m = ends (err e) m
  splice_checked (ok u) fd_in off_in fd_out off_out len m =
      spliced (pipe_from_fd fd_in m.files) (pipe_from_fd fd_out m.files) fd_in off_in fd_out off_out
        len m

  pub sys_splice : ℕ → ℕ → ℕ → ℕ → ℕ → Memory → Ending Memory
  sys_splice fd_in off_in fd_out off_out len m =
      if fd_in == fd_out
      then ends (err einval) m
      else splice_checked (validated (validate_offset off_in m) (validate_offset off_out m)) fd_in
          off_in fd_out off_out len m
