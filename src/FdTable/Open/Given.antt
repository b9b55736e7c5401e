-- ===== src/FdTable/Open/Given.antt =====
-- What `sys_openat` opens.
use freeos.Prelude.{
  ℕ, ◌≡◌, refl, sym, ◌∙◌, Bool, true, false, Option, if◌then◌else◌, Bool-cases, inl, inr,
}
use freeos.Prelude.Errors.{Result, LinuxResult, ok, err, AxError}
use freeos.Prelude.Paths.{Str}
use freeos.FilePaths.{Outcome, returns, Env, handle_file_path}
use freeos.Links.{Links}
use freeos.FdTable.{FlattenObjects, add_file_like}
use freeos.FdTable.Open.{
  Fops, OpenOptions, S, sys_openat, with_disk, dir_opened, as_directory, file_opened, open_with,
  started, start, is_directory_error, flags_to_options,
}

module _ {A : Type 0} (o : FlattenObjects A) (e : Env) (f : Fops A e.file_system.Disk) where
  open o use {Table}
  open e use {file_system}
  open f use {File, Dir, open_file, open_dir, new_file, new_dir}

  abbrev pub disk : LinuxResult ℕ × S o e f → file_system.Disk
  disk (r, (d, t)) = d

  disk-with_disk :
      (d : file_system.Disk) (out : LinuxResult ℕ × Table) → disk (with_disk o e f d out) ≡ d
  disk-with_disk d (r, t) = refl

  disk-dir_opened :
      (p : Str) (t : Table) (r : Result AxError Dir × file_system.Disk)
      → disk (dir_opened o e f p t r) ≡ r.1
  disk-dir_opened p t (err x, d) = refl
  disk-dir_opened p t (ok h, d) = disk-with_disk d (add_file_like o (new_dir h p) t)

  disk-file_opened :
      (again again' : file_system.Disk → LinuxResult ℕ × S o e f) (p p' : Str) (t : Table)
      (r : Result AxError File × file_system.Disk)
      → ((d : file_system.Disk) → disk (again d) ≡ disk (again' d))
      → disk (file_opened o e f again p t r) ≡ disk (file_opened o e f again' p' t r)
  disk-file_opened again again' p p' t (err x, d) same = elim (Bool-cases (is_directory_error x)) [
    | inl directory ↦ rw directory (same d)
    | inr other ↦ rw other refl
  ]
  disk-file_opened again again' p p' t (ok h, d) same =
      disk-with_disk d (add_file_like o (new_file h p) t)
      ∙ sym (disk-with_disk d (add_file_like o (new_file h p') t))

  disk-either :
      (b : Bool) (r r' s s' : LinuxResult ℕ × S o e f)
      → disk r ≡ disk r'
      → disk s ≡ disk s'
      → disk (if b then r else s) ≡ disk (if b then r' else s')
  disk-either true r r' s s' eq other = eq
  disk-either false r r' s s' eq other = other

  disk-open_with :
      (dir : Option Dir) (path : Str) (opts : OpenOptions) (p p' : Str) (d : file_system.Disk)
      (t : Table)
      → disk (open_with o e f dir path opts p (d, t))
        ≡ disk (open_with o e f dir path opts p' (d, t))
  disk-open_with dir path opts p p' d t =
      let again : Str → file_system.Disk → LinuxResult ℕ × S o e f =
        λ q d'. as_directory o e f dir path opts q (d', t) in
      let same : (d' : file_system.Disk) → disk (again p d') ≡ disk (again p' d') = λ d'.
        disk-dir_opened p t (open_dir dir path opts d')
        ∙ sym (disk-dir_opened p' t (open_dir dir path opts d')) in
      let file : Str → LinuxResult ℕ × S o e f =
        λ q. file_opened o e f (again q) q t (open_file dir path opts d) in
      disk-either opts.directory (again p d) (again p' d) (file p) (file p') (same d)
        (disk-file_opened (again p) (again p') p p' t (open_file dir path opts d) same)

  -- Both calls return, and leave the same disk.
  abbrev pub Alike : Outcome (LinuxResult ℕ × S o e f) → Outcome (LinuxResult ℕ × S o e f) → Type 0
  Alike x y =
      (r : LinuxResult ℕ × S o e f) × (r' : LinuxResult ℕ × S o e f) × (x ≡ returns r)
      × (y ≡ returns r')
      × (disk r ≡ disk r')

  started-Alike :
      (l l' : Links) (dirfd : ℕ) (path p p' : Str) (opts : OpenOptions) (d : file_system.Disk)
      (t : Table) (from : LinuxResult (Option Dir))
      → handle_file_path e l dirfd path ≡ returns (ok p)
      → handle_file_path e l' dirfd path ≡ returns (ok p')
      → Alike
          (started o e f l dirfd path opts from (d, t))
          (started o e f l' dirfd path opts from (d, t))
  started-Alike l l' dirfd path p p' opts d t (err x) one two =
      ((err x, (d, t)), (err x, (d, t)), refl, refl, refl)
  started-Alike l l' dirfd path p p' opts d t (ok dir) one two = (
    open_with o e f dir path opts p (d, t),
    open_with o e f dir path opts p' (d, t),
    rw one refl,
    rw two refl,
    disk-open_with dir path opts p p' d t,
  )

  -- `openat` takes no account of hard links: from one disk and one descriptor table, and whichever
  -- paths two sets of links resolve its path to, it returns and leaves the same disk.
  pub sys_openat-Alike :
      (l l' : Links) (dirfd : ℕ) (path p p' : Str) (flags : ℕ) (d : file_system.Disk) (t : Table)
      → handle_file_path e l dirfd path ≡ returns (ok p)
      → handle_file_path e l' dirfd path ≡ returns (ok p')
      → Alike
          (sys_openat o e f l dirfd (ok path) flags (d, t))
          (sys_openat o e f l' dirfd (ok path) flags (d, t))
  unfolding sys_openat
  sys_openat-Alike l l' dirfd path p p' flags d t one two =
      started-Alike l l' dirfd path p p' (flags_to_options flags) d t (start o e f dirfd path t) one
        two
