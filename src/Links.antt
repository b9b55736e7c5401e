-- ===== src/Links.antt =====
-- api/src/path.rs: `HardlinkManager`, and the parts of a `FilePath`. A path is a string of bytes. The
-- file system (crate axfs) is a parameter: whether an absolute path exists, and `remove_file`. The
-- lock around the manager is held for a whole operation.
pub mod Counts
pub mod Behaviour
pub mod Targets
mod Tests
use freeos.Prelude.{
  ℕ, zero, suc, ◌+◌, ◌-◌, Bool, true, false, not, List, [], ◌∷◌, ◌++◌, Option, none, some, ◌==◌,
  if◌then◌else◌,
}
use freeos.Prelude.Errors.{Result, ok, err, AxError, already_exists, invalid_input, not_found}
use freeos.Prelude.Words.{usize_mod}
use freeos.Prelude.Paths.{Str, StrMap, same, get, insert, remove}

pub record FileSystem : Type 1 where
  pub Disk : Type 0
  pub exists : Disk → Str → Bool
  pub remove_file : Disk → Str → Option (Unit {0}) × Disk

pub data LinkError : Type 0 where
  link_exists : LinkError
  invalid_path : LinkError
  link_not_found : LinkError
  not_file : LinkError

-- `From<LinkError> for AxError`
abbrev pub to_ax_error : LinkError → AxError
to_ax_error link_exists = already_exists
to_ax_error invalid_path = invalid_input
to_ax_error link_not_found = not_found
to_ax_error not_file = invalid_input

-- `LinkManagerInner`
pub record Links : Type 0 where
  pub links : StrMap Str
  pub ref_counts : StrMap ℕ

unfoldable pub new : Links
new = record { links = []; ref_counts = [] }

-- `ends_with('/')`; the byte is 47.
unfoldable pub is_dir : Str → Bool
is_dir [] = false
is_dir (c ∷ []) = c == 47
is_dir (c ∷ d ∷ s) = is_dir (d ∷ s)

unfoldable is_file : Str → Bool
is_file p = not (is_dir p)

unfoldable pub is_root : Str → Bool
is_root p = same p (47 ∷ [])

unfoldable pub real_path : Links → Str → Str
real_path l p = elim (get p l.links) [ none ↦ p | some q ↦ q ]

-- The count behind one reference is gone, `*count -= 1`, which wraps round at 0.
abbrev decreased : ℕ → ℕ
decreased zero = usize_mod - 1
decreased (suc n) = n

-- `*inner.ref_counts.entry(dst).or_insert(0) += 1`
abbrev pub increase : Str → StrMap ℕ → StrMap ℕ
increase q m = elim (get q m) [ none ↦ insert q 1 m | some n ↦ insert q (n + 1) m ]

module _ (f : FileSystem) where
  open f use {Disk, exists, remove_file}

  -- The manager and the disk.
  pub record State : Type 0 where
    pub inner : Links
    pub disk : Disk

  -- The last link is gone: the entry is removed, and the file.
  abbrev pub drop_file : Str → State → Option (Unit {0}) × State
  drop_file p s =
      let l = s.inner in
      let (done, d) = remove_file s.disk p in
      (done, record { inner = record l { ref_counts = remove p l.ref_counts }; disk = d })

  -- `decrease_ref_count`, at the count that is found.
  abbrev decrease_at : Str → Option ℕ → State → Option (Unit {0}) × State
  decrease_at p none s = (none, s)
  decrease_at p (some n) s =
      let l = s.inner in
      if decreased n == 0 then drop_file p s else (
        some tt,
        record s { inner = record l { ref_counts = insert p (decreased n) l.ref_counts } },
      )

  pub decrease_ref_count : Str → State → Option (Unit {0}) × State
  decrease_ref_count p s = decrease_at p (get p s.inner.ref_counts) s

  -- A link from `src` to `dst` is entered, and counted.
  abbrev pub enter : Str → Str → State → State
  enter src dst s = record s {
    inner = record {
      links = insert src dst s.inner.links;
      ref_counts = increase dst s.inner.ref_counts;
    };
  }

  abbrev update_at : Str → Str → Option Str → State → State
  update_at src dst none s = enter src dst s
  update_at src dst (some old) s =
      if same old dst then s else enter src dst (decrease_ref_count old s).1

  unfoldable pub atomic_link_update : Str → Str → State → State
  atomic_link_update src dst s = update_at src dst (get src s.inner.links) s

  abbrev remove_at : Str → Option Str → State → Option Str × State
  remove_at src none s = (none, s)
  remove_at src (some dst) s = (
    some dst,
    (decrease_ref_count dst
        (record s { inner = record s.inner { links = remove src s.inner.links } })).1,
  )

  unfoldable pub atomic_link_remove : Str → State → Option Str × State
  atomic_link_remove src s = remove_at src (get src s.inner.links) s

  unfoldable pub create_link : Str → Str → State → Result LinkError (Unit {0}) × State
  create_link src dst s =
      if not (exists s.disk dst)
      then (err link_not_found, s)
      else if not (is_dir dst)
      then (err not_file, s)
      else (ok tt, atomic_link_update src dst s)

  -- Without a link, the file itself is removed.
  abbrev pub or_remove_file : Str → Option Str × State → Option Str × State
  or_remove_file src (some dst, s) = (some dst, s)
  or_remove_file src (none, s) =
      let (done, d) = remove_file s.disk src in
      (elim done [ none ↦ none | some u ↦ some src ], record s { disk = d })

  unfoldable pub remove_link : Str → State → Option Str × State
  remove_link src s = or_remove_file src (atomic_link_remove src s)

  pub link_count : Str → State → ℕ
  link_count p s = elim (get p s.inner.ref_counts) [
    | none ↦ if exists s.disk p then 1 else 0
    | some n ↦ n
  ]
