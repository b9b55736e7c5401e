-- ===== src/FdTable/Open.antt =====
-- `sys_openat` and `sys_open` of api/src/imp/fs/fd_ops.rs, over the paths of FilePaths. What axfs
-- opens is a parameter; the flags are those of x86_64. The path of the new object is the resolved one,
-- and what is opened is the path as it was given.
pub mod Opened
pub mod Given
use Prim.Native.Nat.{bit_and}
use freeos.Prelude.{
  ℕ, ◌≡◌, ◌⊎◌, inl, inr, refl, Bool, true, false, ◌||◌, Option, none, some, ◌==◌, if◌then◌else◌,
  Bool-cases,
}
use freeos.Prelude.Errors.{
  Result, LinuxResult, ok, err, AxError, LinuxError, ◌>>=◌, ok_or, enotdir, no_memory,
  already_exists, not_found, invalid_input, invalid_data, is_a_directory,
}
use freeos.Prelude.Words.{has_bits, i32_as_usize}
use freeos.Prelude.Paths.{Str}
use freeos.FilePaths.{Outcome, panics, returns, Env, starts_slash, at_fdcwd, handle_file_path}
use freeos.Links.{Links}
use freeos.FdTable.{FlattenObjects, IsFlatten, Holds, get_file_like, add_file_like}
use freeos.FdTable.Calls.{Opens, add_file_like-Opens}

-- `OpenOptions` of axfs
pub record OpenOptions : Type 0 where
  pub read : Bool
  pub write : Bool
  pub append : Bool
  pub truncate : Bool
  pub create : Bool
  pub execute : Bool
  pub directory : Bool

abbrev o_rdonly : ℕ
o_rdonly = 0

abbrev o_wronly : ℕ
o_wronly = 1

abbrev o_creat : ℕ
o_creat = 0o100

abbrev o_trunc : ℕ
o_trunc = 0o1000

abbrev o_append : ℕ
o_append = 0o2000

abbrev pub o_directory : ℕ
o_directory = 0o200000

-- `O_EXEC`, which is `O_PATH`
abbrev o_exec : ℕ
o_exec = 0o10000000

abbrev pub flags_to_options : ℕ → OpenOptions
flags_to_options flags = record {
  read =
      if bit_and flags 3 == o_rdonly
      then true
      else if bit_and flags 3 == o_wronly
      then false
      else true;
  write = if bit_and flags 3 == o_rdonly then false else true;
  append = has_bits flags o_append;
  truncate = has_bits flags o_trunc;
  create = has_bits flags o_creat;
  execute = has_bits flags o_exec;
  directory = has_bits flags o_directory;
}

-- `axfs::fops`: without a directory a path is opened by `File::open` and `Directory::open_dir`, with
-- one by `open_file_at` and `open_dir_at`. A file or a directory with its path is a file of the table.
pub record Fops (A : Type 0) (Disk : Type 0) : Type 1 where
  pub File : Type 0
  pub Dir : Type 0
  pub open_file : Option Dir → Str → OpenOptions → Disk → Result AxError File × Disk
  pub open_dir : Option Dir → Str → OpenOptions → Disk → Result AxError Dir × Disk
  pub new_file : File → Str → A
  pub new_dir : Dir → Str → A
  pub as_dir : A → Option Dir

abbrev pub is_directory_error : AxError → Bool
is_directory_error no_memory = false
is_directory_error already_exists = false
is_directory_error not_found = false
is_directory_error invalid_input = false
is_directory_error invalid_data = false
is_directory_error is_a_directory = true

module _ {A : Type 0} (o : FlattenObjects A) (e : Env) (f : Fops A e.file_system.Disk) where
  open o use {Table}
  open e use {file_system, linux_error}
  open f use {File, Dir, open_file, open_dir, new_file, new_dir, as_dir}

  abbrev pub S : Type 0
  S = file_system.Disk × Table

  -- `Directory::from_fd`
  abbrev pub from_fd : ℕ → Table → LinuxResult Dir
  from_fd fd t = get_file_like o fd t >>= λ a. ok_or (as_dir a) enotdir

  abbrev pub start : ℕ → Str → Table → LinuxResult (Option Dir)
  start dirfd path t =
      if starts_slash path || dirfd == at_fdcwd e
      then ok none
      else (from_fd dirfd t >>= λ d. ok (some d))

  abbrev pub with_disk : file_system.Disk → LinuxResult ℕ × Table → LinuxResult ℕ × S
  with_disk d (r, t) = (r, (d, t))

  abbrev pub dir_opened : Str → Table → Result AxError Dir × file_system.Disk → LinuxResult ℕ × S
  dir_opened real_path t (err x, d) = (err (linux_error x), (d, t))
  dir_opened real_path t (ok h, d) = with_disk d (add_file_like o (new_dir h real_path) t)

  abbrev pub as_directory : Option Dir → Str → OpenOptions → Str → S → LinuxResult ℕ × S
  as_directory dir path opts real_path (d, t) = dir_opened real_path t (open_dir dir path opts d)

  -- Only `IsADirectory` goes on to the directory.
  abbrev pub file_opened :
      (file_system.Disk → LinuxResult ℕ × S)
      → Str
      → Table
      → Result AxError File × file_system.Disk
      → LinuxResult ℕ × S
  file_opened again real_path t (err x, d) =
      if is_directory_error x then again d else (err (linux_error x), (d, t))
  file_opened again real_path t (ok h, d) = with_disk d (add_file_like o (new_file h real_path) t)

  abbrev pub open_with : Option Dir → Str → OpenOptions → Str → S → LinuxResult ℕ × S
  open_with dir path opts real_path (d, t) =
      if opts.directory
      then as_directory dir path opts real_path (d, t)
      else file_opened (λ d'. as_directory dir path opts real_path (d', t)) real_path t
          (open_file dir path opts d)

  abbrev pub resolved :
      Option Dir → Str → OpenOptions → Outcome (LinuxResult Str) → S → Outcome (LinuxResult ℕ × S)
  resolved dir path opts panics s = panics
  resolved dir path opts (returns (err x)) s = returns (err x, s)
  resolved dir path opts (returns (ok real_path)) s = returns (open_with dir path opts real_path s)

  abbrev pub started :
      Links → ℕ → Str → OpenOptions → LinuxResult (Option Dir) → S → Outcome (LinuxResult ℕ × S)
  started l dirfd path opts (err x) s = returns (err x, s)
  started l dirfd path opts (ok dir) s = resolved dir path opts (handle_file_path e l dirfd path) s

  unfoldable pub sys_openat : Links → ℕ → LinuxResult Str → ℕ → S → Outcome (LinuxResult ℕ × S)
  sys_openat l dirfd (err x) flags s = returns (err x, s)
  sys_openat l dirfd (ok path) flags (d, t) =
      started l dirfd path (flags_to_options flags) (start dirfd path t) (d, t)

  unfoldable sys_open : Links → LinuxResult Str → ℕ → S → Outcome (LinuxResult ℕ × S)
  unfolding sys_openat
  sys_open l path flags s = sys_openat l (at_fdcwd e) path flags s
