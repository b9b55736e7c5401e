-- ===== src/Io/Transfer/Ends.antt =====
-- The loops of `sys_copy_file_range` and `sys_splice` end, and count no more than they were asked for.
use freeos.Prelude.{
  ℕ, ◌≤◌, ◌≡◌, refl, ap, List, ◌∷◌, Option, none, some, arith, ◌==◌, length, min, Bool-cases, inl,
  inr,
}
use freeos.Prelude.Errors.{LinuxResult, ok, err}
use freeos.Io.{Files, IsBounded}
use freeos.Io.Transfer.Loop.{AtMost, AtMostOr, always-Bounds, transfer-AtMost}
use freeos.Io.Transfer.{
  Ending, ends, blocks, unfinished, always, pipe_kept, Memory, copy_fetch, copy_store,
  sys_copy_file_range, pipe_fetch, write_cell, read_cell, file_fetch, pipe_store,
  splice_pipe_to_file, splice_file_to_pipe, sys_splice, spliced, unless_ended, read_there,
  write_there, moved_read, moved_write, copy_files, validated, validate_offset, splice_checked,
  into_file, from_file, i64_ge,
}

module _ (f : Files) (b : IsBounded f) where
  open f use {State, File}

  module _ (h : File) (p : ℕ) where
    moved_read_le :
        (o n : ℕ) (m : Memory f) (r : LinuxResult (List ℕ) × State) (bytes : List ℕ)
        → ((bs : List ℕ) → r.0 ≡ ok bs → length bs ≤ n)
        → (moved_read f p o m r).0 ≡ ok bytes
        → length bytes ≤ n
    moved_read_le o n m (err x, s) bytes bound e = cc
    moved_read_le o n m (ok bs, s) bytes bound e = bound bytes e

    read_there_le :
        (n : ℕ) (m : Memory f) (c : LinuxResult ℕ) (bytes : List ℕ)
        → (read_there f h p n m c).0 ≡ ok bytes
        → length bytes ≤ n
    read_there_le n m (err x) bytes e = cc
    read_there_le n m (ok o) bytes e =
        moved_read_le o n m (f.read_at h o n m.files) bytes (b.read_at_le h o n m.files) e

    read_cell_le :
        (n : ℕ) (m : Memory f) (bytes : List ℕ)
        → (read_cell f h p n m).0 ≡ ok bytes
        → length bytes ≤ n
    unfolding read_cell
    read_cell_le n m bytes e = read_there_le n m (m.cell p) bytes e

    moved_write_le :
        (o : ℕ) (m : Memory f) (bytes : List ℕ) (r : LinuxResult ℕ × State) (n : ℕ)
        → ((k : ℕ) → r.0 ≡ ok k → k ≤ length bytes)
        → (moved_write f p o m r).0 ≡ ok n
        → n ≤ length bytes
    moved_write_le o m bytes (err x, s) n bound e = cc
    moved_write_le o m bytes (ok k, s) n bound e = bound n e

    write_there_le :
        (bytes : List ℕ) (m : Memory f) (c : LinuxResult ℕ) (n : ℕ)
        → (write_there f h p bytes m c).0 ≡ ok n
        → n ≤ length bytes
    write_there_le bytes m (err x) n e = cc
    write_there_le bytes m (ok o) n e =
        moved_write_le o m bytes (f.write_at h o bytes m.files) n (b.write_at_le h o bytes m.files)
          e

    write_cell_le :
        (bytes : List ℕ) (m : Memory f) (n : ℕ)
        → (write_cell f h p bytes m).0 ≡ ok n
        → n ≤ length bytes
    unfolding write_cell
    write_cell_le bytes m n e = write_there_le bytes m (m.cell p) n e

    copy_fetch_le :
        (n : ℕ) (m : Memory f) (bytes : List ℕ)
        → (copy_fetch f h p n m).0 ≡ ok bytes
        → length bytes ≤ n
    unfolding copy_fetch
    copy_fetch_le n m bytes = elim (Bool-cases (p == 0)) [
      | inl null ↦ rw null (b.read_le h n m.files bytes)
      | inr here ↦ rw here (read_cell_le n m bytes)
    ]

    copy_store_le :
        (bytes : List ℕ) (m : Memory f) (n : ℕ)
        → (copy_store f h p bytes m).0 ≡ ok n
        → n ≤ length bytes
    unfolding copy_store
    copy_store_le bytes m n = elim (Bool-cases (p == 0)) [
      | inl null ↦ rw null (b.write_le h bytes m.files n)
      | inr here ↦ rw here (write_cell_le bytes m n)
    ]

    unless_ended_le :
        (n : ℕ) (m : Memory f) (c k : LinuxResult ℕ) (bytes : List ℕ)
        → (unless_ended f h p n m c k).0 ≡ ok bytes
        → length bytes ≤ n
    unless_ended_le n m (err x) k bytes = λ e. cc
    unless_ended_le n m (ok o) (err x) bytes = λ e. cc
    unless_ended_le n m (ok o) (ok k) bytes = elim (Bool-cases (i64_ge o k)) [
      | inl ended ↦ rw ended (λ e. ground arith)
      | inr more ↦ rw more (read_cell_le n m bytes)
    ]

    file_fetch_le :
        (n : ℕ) (m : Memory f) (bytes : List ℕ)
        → (file_fetch f h p n m).0 ≡ ok bytes
        → length bytes ≤ n
    unfolding file_fetch
    file_fetch_le n m bytes = elim (Bool-cases (p == 0)) [
      | inl null ↦ rw null (read_cell_le n m bytes)
      | inr here ↦ rw here (unless_ended_le n m (m.cell p) (f.size h m.files) bytes)
    ]

  pipe_fetch_le :
      (pipe : File) (n : ℕ) (m : Memory f) (bytes : List ℕ)
      → (pipe_fetch f pipe n m).0 ≡ ok bytes
      → length bytes ≤ n
  unfolding pipe_fetch
  pipe_fetch_le pipe n m bytes = elim (Bool-cases (f.available_data pipe m.files == 0)) [
    | inl empty ↦ rw empty (λ e. ground arith)
    | inr some_data ↦
        rw some_data (λ e.
          omega (arith, b.read_le pipe (min n (f.available_data pipe m.files)) m.files bytes e))
  ]

  pub splice_pipe_to_file-AtMost :
      (pipe file : File) (off_out len : ℕ) (m : Memory f)
      → AtMost len (splice_pipe_to_file f pipe file off_out len m)
  unfolding splice_pipe_to_file
  splice_pipe_to_file-AtMost pipe file off_out len m =
      transfer-AtMost (pipe_fetch f pipe) (always (write_cell f file off_out)) (λ bytes s. ⊥)
        (always-Bounds (pipe_fetch f pipe) (write_cell f file off_out) (pipe_fetch_le pipe)
          (write_cell_le file off_out))
        len m

  -- The pipe takes no more of these bytes, and the write waits for room for ever.
  abbrev Waits : File → List ℕ → Memory f → Type 0
  Waits pipe bytes m = f.write_pipe pipe bytes m.files ≡ none

  pipe_kept_le :
      (bytes : List ℕ) (m m' : Memory f) (n : ℕ) (r : Option (LinuxResult ℕ × State))
      → ((s' : State) → r ≡ some (ok n, s') → n ≤ length bytes)
      → pipe_kept f m r ≡ some (ok n, m')
      → n ≤ length bytes
  pipe_kept_le bytes m m' n none bound e = cc
  pipe_kept_le bytes m m' n (some (err x, s)) bound e = cc
  pipe_kept_le bytes m m' n (some (ok k, s)) bound e =
      bound s (ap (λ r. some (r, s)) (ap (λ o. elim o [ none ↦ ok n | some r ↦ r.0 ]) e))

  pipe_kept-none :
      (m : Memory f) (r : Option (LinuxResult ℕ × State)) → pipe_kept f m r ≡ none → r ≡ none
  pipe_kept-none m none e = refl
  pipe_kept-none m (some r) e = cc

  splice_file_to_pipe-AtMost :
      (file pipe : File) (off_in len : ℕ) (m : Memory f)
      → AtMostOr (Waits pipe) len (splice_file_to_pipe f file pipe off_in len m)
  unfolding splice_file_to_pipe pipe_store
  splice_file_to_pipe-AtMost file pipe off_in len m =
      transfer-AtMost (file_fetch f file off_in) (pipe_store f pipe) (Waits pipe)
        (record {
          fetch_le = file_fetch_le file off_in;
          store_le = λ bytes s s' n.
              pipe_kept_le bytes s s' n (f.write_pipe pipe bytes s.files)
                (λ t. b.write_pipe_le pipe bytes s.files t n);
          store_blocks = λ x bytes s. pipe_kept-none s (f.write_pipe pipe (x ∷ bytes) s.files);
        })
        len m

  -- `sys_copy_file_range` always comes to an end, with an error or a count of at most `len`.
  pub sys_copy_file_range-AtMost :
      (fd_in off_in fd_out off_out len : ℕ) (m : Memory f)
      → AtMost len (sys_copy_file_range f fd_in off_in fd_out off_out len m)
  unfolding sys_copy_file_range
  sys_copy_file_range-AtMost fd_in off_in fd_out off_out len m =
      elim (Bool-cases (fd_in == fd_out)) [
        | inl it ↦ rw it tt
        | inr other ↦
            rw other (copies (f.file_from_fd fd_in m.files) (f.file_from_fd fd_out m.files))
      ]
    where
      copies : (i o : LinuxResult File) → AtMost len (copy_files f i o off_in off_out len m)
      copies (err e) o = tt
      copies (ok i) (err e) = tt
      copies (ok i) (ok o) =
          transfer-AtMost (copy_fetch f i off_in) (always (copy_store f o off_out)) (λ bytes s. ⊥)
            (always-Bounds (copy_fetch f i off_in) (copy_store f o off_out) (copy_fetch_le i off_in)
              (copy_store_le o off_out))
            len m

  -- The write that a call waits in, to the pipe that it found.
  abbrev pub WaitsIn : LinuxResult File → List ℕ → Memory f → Type 0
  WaitsIn r bytes m = (pipe : File) × (r ≡ ok pipe) × Waits pipe bytes m

  waits_in :
      (pipe : File) (len : ℕ) (e : Ending (Memory f))
      → AtMostOr (Waits pipe) len e
      → AtMostOr (WaitsIn (ok pipe)) len e
  waits_in pipe len (ends (ok n) m) h = h
  waits_in pipe len (ends (err e) m) h = h
  waits_in pipe len (blocks bytes m) h = (pipe, refl, h)
  waits_in pipe len unfinished h = elim h [ ]

  or_waits :
      (r : LinuxResult File) (len : ℕ) (e : Ending (Memory f))
      → AtMost len e
      → AtMostOr (WaitsIn r) len e
  or_waits r len (ends (ok n) m) h = h
  or_waits r len (ends (err e) m) h = h
  or_waits r len (blocks bytes m) h = elim h [ ]
  or_waits r len unfinished h = elim h [ ]

  spliced-AtMost :
      (i o : LinuxResult File) (fd_in off_in fd_out off_out len : ℕ) (m : Memory f)
      → AtMostOr (WaitsIn o) len (spliced f i o fd_in off_in fd_out off_out len m)
  unfolding spliced
  spliced-AtMost (ok pipe) (err e) fd_in off_in fd_out off_out len m =
      elim (Bool-cases (f.readable pipe)) [
        | inl can ↦ rw can (elim (Bool-cases (off_out == 0)) [
          | inl null ↦ rw null tt
          | inr here ↦ rw here (out (f.file_from_fd fd_out m.files))
        ])
        | inr cannot ↦ rw cannot tt
      ]
    where
      out :
          (r : LinuxResult File) → AtMostOr (WaitsIn (err e)) len (into_file f pipe r off_out len m)
      out (err e') = tt
      out (ok file) =
          or_waits (err e) len (splice_pipe_to_file f pipe file off_out len m)
            (splice_pipe_to_file-AtMost pipe file off_out len m)
  spliced-AtMost (err e) (ok pipe) fd_in off_in fd_out off_out len m =
      elim (Bool-cases (f.writable pipe)) [
        | inl can ↦ rw can (elim (Bool-cases (off_in == 0)) [
          | inl null ↦ rw null tt
          | inr here ↦ rw here (from (f.file_from_fd fd_in m.files))
        ])
        | inr cannot ↦ rw cannot tt
      ]
    where
      from :
          (r : LinuxResult File)
          → AtMostOr (WaitsIn (ok pipe)) len (from_file f pipe r off_in len m)
      from (err e') = tt
      from (ok file) =
          waits_in pipe len (splice_file_to_pipe f file pipe off_in len m)
            (splice_file_to_pipe-AtMost file pipe off_in len m)
  spliced-AtMost (ok pipe) (ok pipe') fd_in off_in fd_out off_out len m = tt
  spliced-AtMost (err e) (err e') fd_in off_in fd_out off_out len m = tt

  -- `sys_splice` returns an error or a count of at most `len`, unless it waits for ever in a write to the
  -- pipe that it found behind `fd_out`. So it always returns when there is no pipe behind `fd_out`.
  pub sys_splice-AtMost :
      (fd_in off_in fd_out off_out len : ℕ) (m : Memory f)
      → AtMostOr
          (WaitsIn (f.pipe_from_fd fd_out m.files))
          len
          (sys_splice f fd_in off_in fd_out off_out len m)
  unfolding sys_splice
  sys_splice-AtMost fd_in off_in fd_out off_out len m = elim (Bool-cases (fd_in == fd_out)) [
    | inl it ↦ rw it tt
    | inr other ↦
        rw other (checks (validated f (validate_offset f off_in m) (validate_offset f off_out m)))
  ]
    where
      checks :
          (r : LinuxResult (Unit {0}))
          → AtMostOr
              (WaitsIn (f.pipe_from_fd fd_out m.files))
              len
              (splice_checked f r fd_in off_in fd_out off_out len m)
      checks (err e) = tt
      checks (ok u) =
          spliced-AtMost (f.pipe_from_fd fd_in m.files) (f.pipe_from_fd fd_out m.files) fd_in off_in
            fd_out off_out len m
