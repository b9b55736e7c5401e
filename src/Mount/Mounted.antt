-- ===== src/Mount/Mounted.antt =====
-- What is mounted after `sys_mount` and `sys_umount2`.
use freeos.Prelude.{
  ℕ, ◌≡◌, refl, ap, Bool, true, false, [], ◌∷◌, ◌++◌, arith, ltb, Bool-cases, inl, inr, length,
  length-append,
}
use freeos.Prelude.Errors.{ok, err, eperm}
use freeos.Prelude.Paths.{Str, same, same_self, same-≡}
use freeos.Links.{Links}
use freeos.FilePaths.{returns, Env, handle_file_path}
use freeos.Mount.{
  MountedFs, Mounts, starts_with, retained, check_mounted, mount_fat_fs, umount_fat_fs, vfat,
  sys_mount, sys_umount2, at_fdcwd,
}

starts_with_append : (s t : Str) → starts_with (s ++ t) s ≡ true
unfolding starts_with
starts_with_append [] t = refl
starts_with_append (c ∷ s) t = ground (arith, starts_with_append s t)

starts_with_self : (s : Str) → starts_with s s ≡ true
unfolding starts_with
starts_with_self [] = refl
starts_with_self (c ∷ s) = ground (arith, starts_with_self s)

not_same : (s t : Str) → starts_with t s ≡ false → same s t ≡ false
not_same s t no_prefix = elim (Bool-cases (same s t)) [
  | inl it ↦
      let e : s ≡ t = same-≡ s t it in
      absurd (ground (arith, starts_with_self t, ap (λ x. starts_with t x) e, no_prefix))
  | inr other ↦ other
]

retained_new :
    (dir : Str) (x : MountedFs) (m : Mounts)
    → x.mnt_dir ≡ dir
    → check_mounted dir m ≡ false
    → retained dir (m ++ (x ∷ [])) ≡ m
unfolding check_mounted
retained_new dir x [] it free = rw (it, same_self dir) refl
retained_new dir x (y ∷ m) it free = elim (Bool-cases (starts_with dir y.mnt_dir)) [
  | inl prefix ↦ absurd (ground (arith, prefix, free))
  | inr no_prefix ↦
      rw (not_same y.mnt_dir dir no_prefix)
        (ap (λ l. y ∷ l) (retained_new dir x m it (ground (arith, no_prefix, free))))
]

check_mounted_prefix :
    (d rest : Str) (x : MountedFs) (before after : Mounts)
    → x.mnt_dir ≡ d
    → check_mounted (d ++ rest) (before ++ (x ∷ after)) ≡ true
unfolding check_mounted
check_mounted_prefix d rest x [] after it = rw (it, starts_with_append d rest) refl
check_mounted_prefix d rest x (y ∷ before) after it =
    ground (arith, check_mounted_prefix d rest x before after it)

module _ (e : Env) (l : Links) (exists : Str → Bool) where
  abbrev pub cwd : ℕ
  cwd = at_fdcwd e l exists

  -- A device can be mounted on a path that exists and that no mounted path is a prefix of, and
  -- `sys_umount2` then gives the list of mounts as it was.
  pub sys_umount2-sys_mount :
      (source target device dir : Str) (m : Mounts)
      → handle_file_path e l cwd source ≡ returns (ok device)
      → handle_file_path e l cwd target ≡ returns (ok dir)
      → exists dir ≡ true
      → check_mounted dir m ≡ false
      → let mounted = m ++ (record { device = device; mnt_dir = dir } ∷ []) in
        (sys_mount e l exists (ok source) (ok target) (ok vfat) m ≡ returns (ok 0, mounted))
        × (sys_umount2 e l exists (ok target) 0 mounted ≡ returns (ok 0, m))
  unfolding sys_mount sys_umount2 mount_fat_fs umount_fat_fs
  sys_umount2-sys_mount source target device dir m from to there free =
      let x : MountedFs = record { device = device; mnt_dir = dir } in
      let fewer : ltb (length m) (length (m ++ (x ∷ []))) ≡ true =
        ground (arith, length-append m (x ∷ [])) in
      (
        rw (from, to, same_self vfat, there, free) refl,
        rw (to, there, retained_new dir x m refl free, fewer) refl,
      )

  -- While a path is mounted, nothing is mounted on a path that goes on from it, also in the same
  -- directory, as `/mnt2` from `/mnt`.
  sys_mount_prefix :
      (source target device d rest fs_type : Str) (x : MountedFs) (before after : Mounts)
      → handle_file_path e l cwd source ≡ returns (ok device)
      → handle_file_path e l cwd target ≡ returns (ok (d ++ rest))
      → x.mnt_dir ≡ d
      → let m = before ++ (x ∷ after) in
        sys_mount e l exists (ok source) (ok target) (ok fs_type) m ≡ returns (err eperm, m)
  unfolding sys_mount
  sys_mount_prefix source target device d rest fs_type x before after from to it =
      rw (from, to, check_mounted_prefix d rest x before after it)
        (elim (Bool-cases (same fs_type vfat)) [
          | inl fat ↦ rw fat (elim (Bool-cases (exists (d ++ rest))) [
            | inl there ↦ rw there refl
            | inr missing ↦ rw missing refl
          ])
          | inr unknown ↦ rw unknown refl
        ])
