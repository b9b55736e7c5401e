-- ===== src/Io.antt =====
-- api/src/imp/fs/io.rs: the calls that read, write and seek. What is behind a descriptor (`FileLike`,
-- `File`, `Pipe`) is a record of operations that the calls use; `read` gives the bytes that it puts at
-- the start of the buffer, whose number the source returns. A buffer in user memory is its length
-- with the result of the access check.
pub mod Transfer
pub mod Vector
mod Tests
use freeos.Prelude.{
  ℕ, zero, suc, ◌≤◌, ◌≡◌, Bool, List, [], ◌∷◌, ◌==◌, if◌then◌else◌, ltb, length, take, Option, some,
}
use freeos.Prelude.Errors.{LinuxResult, ok, err, ◌>>=◌, einval}

-- `SeekFrom` of axio. An `i64` is its bit pattern.
pub data SeekFrom : Type 0 where
  start current end : ℕ → SeekFrom

pub record Files : Type 1 where
  pub State : Type 0
  pub File : Type 0
  pub get_file_like : ℕ → State → LinuxResult File
  pub file_from_fd : ℕ → State → LinuxResult File
  pub pipe_from_fd : ℕ → State → LinuxResult File
  pub read : File → ℕ → State → LinuxResult (List ℕ) × State
  pub write : File → List ℕ → State → LinuxResult ℕ × State
  -- `Pipe::write`: it waits for room while the pipe is full, so it may never return.
  pub write_pipe : File → List ℕ → State → Option (LinuxResult ℕ × State)
  pub read_at : File → ℕ → ℕ → State → LinuxResult (List ℕ) × State
  pub write_at : File → ℕ → List ℕ → State → LinuxResult ℕ × State
  pub seek : File → SeekFrom → State → LinuxResult ℕ × State
  pub truncate : File → ℕ → State → LinuxResult (Unit {0}) × State
  pub fsync : File → State → LinuxResult (Unit {0}) × State
  pub size : File → State → LinuxResult ℕ
  pub readable : File → Bool
  pub writable : File → Bool
  pub available_data : File → State → ℕ

-- What `Read` and `Write` of axio promise: no more bytes than there is room for, or than were given.
pub record IsBounded (f : Files) : Type 0 where
  pub read_le :
      (h : f.File) (n : ℕ) (s : f.State) (bytes : List ℕ)
      → (f.read h n s).0 ≡ ok bytes
      → length bytes ≤ n
  pub read_at_le :
      (h : f.File) (o n : ℕ) (s : f.State) (bytes : List ℕ)
      → (f.read_at h o n s).0 ≡ ok bytes
      → length bytes ≤ n
  pub write_le :
      (h : f.File) (bytes : List ℕ) (s : f.State) (n : ℕ)
      → (f.write h bytes s).0 ≡ ok n
      → n ≤ length bytes
  pub write_pipe_le :
      (h : f.File) (bytes : List ℕ) (s s' : f.State) (n : ℕ)
      → f.write_pipe h bytes s ≡ some (ok n, s')
      → n ≤ length bytes
  pub write_at_le :
      (h : f.File) (o : ℕ) (bytes : List ℕ) (s : f.State) (n : ℕ)
      → (f.write_at h o bytes s).0 ≡ ok n
      → n ≤ length bytes

-- A buffer to read into, and one to write from: an address is checked when it is used.
pub record ReadBuf : Type 0 where
  pub len : ℕ
  pub access : LinuxResult (Unit {0})

pub record WriteBuf : Type 0 where
  pub len : ℕ
  pub access : LinuxResult (List ℕ)

-- The bytes read go to the caller's buffer; the call returns their number.
abbrev count_of : {S : Type 0} → LinuxResult (List ℕ) × S → LinuxResult ℕ × S
count_of (ok bytes, s) = (ok (length bytes), s)
count_of (err e, s) = (err e, s)

abbrev zero_of : {S : Type 0} → LinuxResult (Unit {0}) × S → LinuxResult ℕ × S
zero_of (ok u, s) = (ok 0, s)
zero_of (err e, s) = (err e, s)

module _ (f : Files) where
  open f use {
    State, File, get_file_like, file_from_fd, read, write, read_at, write_at, seek, truncate, fsync,
  }

  -- An operation on the file behind a descriptor, after the buffer's check.
  abbrev pub on :
      {A B : Type 0}
      → LinuxResult A
      → LinuxResult File
      → (File → A → State → LinuxResult B × State)
      → State
      → LinuxResult B × State
  on (err e) h k s = (err e, s)
  on (ok a) (err e) k s = (err e, s)
  on (ok a) (ok h) k s = k h a s

  unfoldable sys_pread64 : ℕ → ReadBuf → ℕ → State → LinuxResult ℕ × State
  sys_pread64 fd buf offset s =
      count_of (on buf.access (get_file_like fd s) (λ h u. read_at h offset buf.len) s)

  unfoldable sys_pwrite64 : ℕ → WriteBuf → ℕ → State → LinuxResult ℕ × State
  sys_pwrite64 fd buf offset s = on buf.access (get_file_like fd s) (λ h. write_at h offset) s

  unfoldable sys_ftruncate : ℕ → ℕ → State → LinuxResult ℕ × State
  sys_ftruncate fd len s = zero_of (on (ok tt) (get_file_like fd s) (λ h u. truncate h len) s)

  unfoldable sys_fsync : ℕ → State → LinuxResult ℕ × State
  sys_fsync fd s = zero_of (on (ok tt) (get_file_like fd s) (λ h u. fsync h) s)

  unfoldable sys_read : ℕ → ReadBuf → State → LinuxResult ℕ × State
  sys_read fd buf s = count_of (on buf.access (get_file_like fd s) (λ h u. read h buf.len) s)

  unfoldable sys_write : ℕ → WriteBuf → State → LinuxResult ℕ × State
  sys_write fd buf s = on buf.access (get_file_like fd s) write s

  -- `whence` is the directive's number.
  abbrev seek_from : ℕ → ℕ → LinuxResult SeekFrom
  seek_from offset whence =
      if whence == 0
      then ok (SeekFrom.start offset)
      else if whence == 1
      then ok (SeekFrom.current offset)
      else if whence == 2
      then ok (SeekFrom.end offset)
      else err einval

  unfoldable sys_lseek : ℕ → ℕ → ℕ → State → LinuxResult ℕ × State
  sys_lseek fd offset whence s = on (seek_from offset whence) (file_from_fd fd s) seek s
