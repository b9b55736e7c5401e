-- ===== src/Mount.antt =====
-- api/src/imp/fs/mount.rs: the list of mounted file systems, `sys_mount` and `sys_umount2`, over the
-- paths of FilePaths.
pub mod Mounted
mod Tests
use freeos.Prelude.{
  ℕ, ◌+◌, Bool, true, false, not, ◌&&◌, ◌||◌, List, [], ◌∷◌, ◌++◌, Option, none, some, ◌==◌, ltb,
  if◌then◌else◌, length,
}
use freeos.Prelude.Errors.{LinuxResult, ok, err, eperm}
use freeos.Prelude.Paths.{Str, same}
use freeos.Links.{Links}
use freeos.FilePaths.{Outcome, panics, returns, Env, handle_file_path}

pub record MountedFs : Type 0 where
  pub device : Str
  pub mnt_dir : Str

-- `path.starts_with(prefix)`, on the strings.
unfoldable pub starts_with : Str → Str → Bool
starts_with s [] = true
starts_with [] (c ∷ t) = false
starts_with (d ∷ s) (c ∷ t) = d == c && starts_with s t

-- The result, and `MOUNTED`.
abbrev pub Mounts : Type 0
Mounts = List MountedFs

pub mount_fat_fs : Bool → Str → Str → Mounts → Bool × Mounts
mount_fat_fs exists device dir m =
    if exists then (true, m ++ (record { device = device; mnt_dir = dir } ∷ [])) else (false, m)

-- `retain`
abbrev pub retained : Str → Mounts → Mounts
retained dir [] = []
retained dir (x ∷ m) = if same x.mnt_dir dir then retained dir m else x ∷ retained dir m

pub umount_fat_fs : Str → Mounts → Bool × Mounts
umount_fat_fs dir m = (ltb (length (retained dir m)) (length m), retained dir m)

unfoldable pub check_mounted : Str → Mounts → Bool
check_mounted path [] = false
check_mounted path (x ∷ m) = starts_with path x.mnt_dir || check_mounted path m

-- `"vfat"`
abbrev pub vfat : Str
vfat = b'v' ∷ b'f' ∷ b'a' ∷ b't' ∷ []

module _ (e : Env) (l : Links) (exists : Str → Bool) where
  abbrev pub at_fdcwd : ℕ
  at_fdcwd = 4294967196

  abbrev pub answer : Bool × Mounts → LinuxResult ℕ × Mounts
  answer (true, m) = (ok 0, m)
  answer (false, m) = (err eperm, m)

  abbrev mount_at : Str → Str → Str → Mounts → LinuxResult ℕ × Mounts
  mount_at device dir fs_type m =
      if not (same fs_type vfat)
      then (err eperm, m)
      else if not (exists dir)
      then (err eperm, m)
      else if check_mounted dir m
      then (err eperm, m)
      else answer (mount_fat_fs (exists dir) device dir m)

  abbrev mount_paths :
      Outcome (LinuxResult Str)
      → Outcome (LinuxResult Str)
      → Str
      → Mounts
      → Outcome (LinuxResult ℕ × Mounts)
  mount_paths panics dir fs_type m = panics
  mount_paths (returns (err x)) dir fs_type m = returns (err x, m)
  mount_paths (returns (ok device)) panics fs_type m = panics
  mount_paths (returns (ok device)) (returns (err x)) fs_type m = returns (err x, m)
  mount_paths (returns (ok device)) (returns (ok dir)) fs_type m =
      returns (mount_at device dir fs_type m)

  -- The three strings from user memory.
  pub sys_mount :
      LinuxResult Str
      → LinuxResult Str
      → LinuxResult Str
      → Mounts
      → Outcome (LinuxResult ℕ × Mounts)
  sys_mount (err x) target fs_type m = returns (err x, m)
  sys_mount (ok source) (err x) fs_type m = returns (err x, m)
  sys_mount (ok source) (ok target) (err x) m = returns (err x, m)
  sys_mount (ok source) (ok target) (ok fs_type) m =
      mount_paths (handle_file_path e l at_fdcwd source) (handle_file_path e l at_fdcwd target)
        fs_type m

  abbrev umount_at : Outcome (LinuxResult Str) → ℕ → Mounts → Outcome (LinuxResult ℕ × Mounts)
  umount_at panics flags m = panics
  umount_at (returns (err x)) flags m = returns (err x, m)
  umount_at (returns (ok dir)) flags m = returns (
      if not (flags == 0)
      then (err eperm, m)
      else if not (exists dir)
      then (err eperm, m)
      else answer (umount_fat_fs dir m))

  pub sys_umount2 : LinuxResult Str → ℕ → Mounts → Outcome (LinuxResult ℕ × Mounts)
  sys_umount2 (err x) flags m = returns (err x, m)
  sys_umount2 (ok target) flags m = umount_at (handle_file_path e l at_fdcwd target) flags m
