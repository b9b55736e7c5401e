-- ===== src/FdTable/Open/Opened.antt =====
-- What `sys_openat` does to the descriptor table.
use freeos.Prelude.{
  ℕ, ◌≡◌, ◌⊎◌, inl, inr, refl, Bool, true, false, Option, none, if◌then◌else◌, Bool-cases,
}
use freeos.Prelude.Errors.{Result, LinuxResult, ok, err, AxError}
use freeos.Prelude.Words.{has_bits, i32_as_usize}
use freeos.Prelude.Paths.{Str}
use freeos.FilePaths.{returns, Env, handle_file_path}
use freeos.Links.{Links}
use freeos.FdTable.{FlattenObjects, IsFlatten, Holds, add_file_like}
use freeos.FdTable.Calls.{Opens, add_file_like-Opens}
use freeos.FdTable.Open.{
  Fops, OpenOptions, S, sys_openat, with_disk, dir_opened, as_directory, file_opened, open_with,
  started, start, is_directory_error, flags_to_options, o_directory,
}

module _ {A : Type 0} (o : FlattenObjects A) (e : Env) (f : Fops A e.file_system.Disk) where
  open o use {Table}
  open e use {file_system, linux_error}
  open f use {File, Dir, open_file, open_dir, new_file, new_dir}

  -- A file or a directory with this path, the latter when the flag asks for one.
  abbrev pub IsNew : Str → Bool → A → Type 0
  IsNew real_path directory a =
      ((h : Dir) × (a ≡ new_dir h real_path))
      ⊎ ((h : File) × (a ≡ new_file h real_path) × (directory ≡ false))

  -- The table is as it was, or has one more object, under a descriptor that was free.
  abbrev pub Opened : Str → Bool → Table → LinuxResult ℕ × S o e f → Type 0
  Opened real_path directory t (err x, (d, t')) = t' ≡ t
  Opened real_path directory t (ok fd, (d, t')) =
      (a : A) × IsNew real_path directory a
      × (o.get (i32_as_usize fd) t ≡ none)
      × Holds o (i32_as_usize fd) a t t'

  module _ (laws : IsFlatten o) where
    with_disk-Opened :
        (p : Str) (b : Bool) (a : A) (t : Table) (d : file_system.Disk)
        (out : LinuxResult ℕ × Table)
        → IsNew p b a
        → Opens o laws a t out
        → Opened p b t (with_disk o e f d out)
    with_disk-Opened p b a t d (err x, t') new (e, same) = same
    with_disk-Opened p b a t d (ok fd, t') new (free, holds) = (a, new, free, holds)

    dir_opened-Opened :
        (p : Str) (b : Bool) (t : Table) (r : Result AxError Dir × file_system.Disk)
        → Opened p b t (dir_opened o e f p t r)
    dir_opened-Opened p b t (err x, d) = refl
    dir_opened-Opened p b t (ok h, d) =
        with_disk-Opened p b (new_dir h p) t d (add_file_like o (new_dir h p) t) (inl (h, refl))
          (add_file_like-Opens o laws (new_dir h p) t)

    file_opened-Opened :
        (p : Str) (t : Table) (again : file_system.Disk → LinuxResult ℕ × S o e f)
        (r : Result AxError File × file_system.Disk)
        → ((d : file_system.Disk) → Opened p false t (again d))
        → Opened p false t (file_opened o e f again p t r)
    file_opened-Opened p t again (err x, d) dirs = elim (Bool-cases (is_directory_error x)) [
      | inl directory ↦ rw directory (dirs d)
      | inr other ↦ rw other refl
    ]
    file_opened-Opened p t again (ok h, d) dirs =
        with_disk-Opened p false (new_file h p) t d (add_file_like o (new_file h p) t)
          (inr (h, refl, refl)) (add_file_like-Opens o laws (new_file h p) t)

    either-Opened :
        (p : Str) (t : Table) (directory : Bool) (r r' : LinuxResult ℕ × S o e f)
        → Opened p true t r
        → Opened p false t r'
        → Opened p directory t (if directory then r else r')
    either-Opened p t true r r' dirs files = dirs
    either-Opened p t false r r' dirs files = files

    open_with-Opened :
        (dir : Option Dir) (path : Str) (opts : OpenOptions) (p : Str) (d : file_system.Disk)
        (t : Table)
        → Opened p opts.directory t (open_with o e f dir path opts p (d, t))
    open_with-Opened dir path opts p d t =
        let again : file_system.Disk → LinuxResult ℕ × S o e f =
          λ d'. as_directory o e f dir path opts p (d', t) in
        let file = open_file dir path opts d in
        either-Opened p t opts.directory (again d) (file_opened o e f again p t file)
          (dir_opened-Opened p true t (open_dir dir path opts d))
          (file_opened-Opened p t again file
            (λ d'. dir_opened-Opened p false t (open_dir dir path opts d')))

    started-Opened :
        (l : Links) (dirfd : ℕ) (path p : Str) (opts : OpenOptions) (d : file_system.Disk)
        (t : Table) (from : LinuxResult (Option Dir))
        → handle_file_path e l dirfd path ≡ returns (ok p)
        → (r : LinuxResult ℕ × S o e f) × (started o e f l dirfd path opts from (d, t) ≡ returns r)
          × Opened p opts.directory t r
    started-Opened l dirfd path p opts d t (err x) resolves = ((err x, (d, t)), refl, refl)
    started-Opened l dirfd path p opts d t (ok dir) resolves = (
      open_with o e f dir path opts p (d, t),
      rw resolves refl,
      open_with-Opened dir path opts p d t,
    )

    -- `openat` whose path resolves returns. If it fails, the descriptor table is as it was. If not,
    -- it returns a descriptor that was free, under which there is a file or directory with the
    -- resolved path, with `O_DIRECTORY` a directory, and every other descriptor is as it was.
    pub sys_openat-Opened :
        (l : Links) (dirfd : ℕ) (path real_path : Str) (flags : ℕ) (d : file_system.Disk)
        (t : Table)
        → handle_file_path e l dirfd path ≡ returns (ok real_path)
        → (r : LinuxResult ℕ × S o e f) × (sys_openat o e f l dirfd (ok path) flags (d, t)
            ≡ returns r)
          × Opened real_path (has_bits flags o_directory) t r
    unfolding sys_openat
    sys_openat-Opened l dirfd path p flags d t resolves =
        started-Opened l dirfd path p (flags_to_options flags) d t (start o e f dirfd path t)
          resolves
