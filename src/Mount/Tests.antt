-- ===== src/Mount/Tests.antt =====
-- `/d` is mounted on `/m`.
use freeos.Prelude.{◌≡◌, refl, Bool, true, false, List, [], ◌∷◌, some}
use freeos.Prelude.Errors.{ok, err, einval, ebadf}
use freeos.Prelude.Paths.{Str, get}
use freeos.Links.{Links, is_dir, real_path}
use freeos.FilePaths.{
  returns, Env, handle_file_path, new, trim, trim_start, trim_end, all_white, is_whitespace,
  starts_slash,
}
use freeos.Mount.{Mounts, sys_mount, sys_umount2, vfat, check_mounted}
use freeos.Mount.Mounted.{cwd, sys_umount2-sys_mount}

abbrev env : Env
env = record {
  file_system = record {
    Disk = List Str;
    exists = λ d p. true;
    remove_file = λ d p. (some tt, p ∷ d);
  };
  canonicalize = λ s. some s;
  linux_error = λ x. einval;
  file_path = λ fd. err ebadf;
  dir_path = λ fd. err ebadf;
  remove_dir = λ d p. (ok tt, d);
  is_dir_at = λ d p. ok false;
}

abbrev no_links : Links
no_links = record { links = []; ref_counts = [] }

abbrev everywhere : Str → Bool
everywhere p = true

-- `/d`, `/m` and `/m2`
abbrev device : Str
device = 47 ∷ 100 ∷ []

abbrev dir : Str
dir = 47 ∷ 109 ∷ []

abbrev sibling : Str
sibling = 47 ∷ 109 ∷ 50 ∷ []

abbrev mounted : Mounts
mounted = record { device = device; mnt_dir = dir } ∷ []

device_path :
    handle_file_path env no_links (cwd env no_links everywhere) device ≡ returns (ok device)
unfolding handle_file_path new trim trim_start trim_end all_white is_whitespace starts_slash is_dir
    real_path get
device_path = refl

dir_path : handle_file_path env no_links (cwd env no_links everywhere) dir ≡ returns (ok dir)
unfolding handle_file_path new trim trim_start trim_end all_white is_whitespace starts_slash is_dir
    real_path get
dir_path = refl

sibling_path :
    handle_file_path env no_links (cwd env no_links everywhere) sibling ≡ returns (ok sibling)
unfolding handle_file_path new trim trim_start trim_end all_white is_whitespace starts_slash is_dir
    real_path get
sibling_path = refl

nothing_mounted : check_mounted dir [] ≡ false
unfolding check_mounted
nothing_mounted = refl

sys_umount2-sys_mount_example :
    (sys_mount env no_links everywhere (ok device) (ok dir) (ok vfat) [] ≡ returns (ok 0, mounted))
    × (sys_umount2 env no_links everywhere (ok dir) 0 mounted ≡ returns (ok 0, []))
sys_umount2-sys_mount_example =
    sys_umount2-sys_mount env no_links everywhere device dir device dir [] device_path dir_path refl
      nothing_mounted
