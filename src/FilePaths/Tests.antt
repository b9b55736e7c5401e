-- ===== src/FilePaths/Tests.antt =====
-- A file system in which every path exists and is a file, and paths are canonical already.
use freeos.Prelude.{◌≡◌, refl, true, false, List, [], ◌∷◌, ◌++◌, none, some, arith}
use freeos.Prelude.Errors.{ok, err, einval, ebadf}
use freeos.Prelude.Paths.{Str, same, get, insert}
use freeos.Links.{is_dir, is_root, real_path, create_link, atomic_link_update}
use freeos.Links.{new as no_links}
use freeos.Links.Targets.{LeadsToDirs}
use freeos.FilePaths.{
  returns, Env, S, new, trim, trim_start, trim_end, all_white, is_whitespace, starts_slash, rfind,
  strip_suffix, parent, name, handle_file_path, sys_linkat, sys_unlinkat,
}
use freeos.FilePaths.Parts.{parent-name}
use freeos.FilePaths.Unlink.{SlashIsDir, Leaves, start, links, sys_unlinkat_keeps}

abbrev env : Env
env = record {
  file_system = record {
    Disk = List Str;
    exists = λ d p. true;
    remove_file = λ d p. (some tt, p ∷ d);
  };
  canonicalize = λ s. some s;
  linux_error = λ x. einval;
  file_path = λ fd. err ebadf;
  dir_path = λ fd. err ebadf;
  remove_dir = λ d p. (ok tt, d);
  is_dir_at = λ d p. ok (is_dir p);
}

-- `/a/b/`, `/a//` and `/a`.
abbrev nested : Str
nested = 47 ∷ 97 ∷ 47 ∷ 98 ∷ 47 ∷ []

abbrev doubled : Str
doubled = 47 ∷ 97 ∷ 47 ∷ 47 ∷ []

abbrev link_path : Str
link_path = 47 ∷ 97 ∷ []

-- The directory `/d/`.
abbrev dir_path : Str
dir_path = 47 ∷ 100 ∷ 47 ∷ []

abbrev linked : S env
linked = record {
  inner = record { links = (link_path, dir_path) ∷ []; ref_counts = (dir_path, 1) ∷ [] };
  disk = [];
}

nested_root : is_root nested ≡ false
unfolding is_root same
nested_root = refl

nested_single : is_dir (strip_suffix nested) ≡ false
unfolding is_dir strip_suffix
nested_single = refl

nested_slash : rfind (strip_suffix nested) ≡ some 2
unfolding is_dir strip_suffix rfind
nested_slash = refl

parent-name_example :
    (d : Str) × (n : Str) × (parent nested ≡ ok d)
    × (name nested ≡ returns (ok n))
    × (d ++ n ≡ strip_suffix nested)
    × (is_dir d ≡ true)
    × (rfind n ≡ none)
parent-name_example = parent-name nested 2 nested_root nested_single nested_slash

doubled_root : is_root doubled ≡ false
unfolding is_root same
doubled_root = refl

doubled_dir : is_dir (strip_suffix doubled) ≡ true
unfolding is_dir strip_suffix
doubled_dir = refl

links_it :
    sys_linkat env 0 (ok dir_path) 0 (ok link_path) (record { inner = no_links; disk = [] })
    ≡ returns (ok 0, linked)
unfolding sys_linkat handle_file_path new no_links starts_slash real_path get insert is_dir trim
    trim_start trim_end all_white is_whitespace same create_link atomic_link_update
links_it = refl

slash_is_dir : SlashIsDir env
slash_is_dir d p dir e = ground (arith, dir, e)

-- `unlinkat` of the link.
sys_unlinkat_keeps_example :
    LeadsToDirs linked.inner
    × Leaves env (λ l. l ≡ linked.inner) (sys_unlinkat env 0 (ok link_path) 0 linked)
sys_unlinkat_keeps_example = sys_unlinkat_keeps env slash_is_dir linked 0 (ok link_path) 0 (
    links 0 (ok dir_path) 0 (ok link_path) (ok 0) (record { inner = no_links; disk = [] }) linked
      (start []) links_it)
