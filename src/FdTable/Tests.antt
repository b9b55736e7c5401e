-- ===== src/FdTable/Tests.antt =====
-- A table that obeys the laws, and the calls on it.
use freeos.Prelude.{
  ℕ, zero, suc, ◌<◌, ◌≤◌, ◌≡◌, ◌↔◌, refl, false, ◌&&◌, not, List, [], ◌∷◌, Option, none, some, ltb,
  ◌==◌, is_some, if◌then◌else◌, true, length, arith, Option-cases, inl, inr,
}
use freeos.Prelude.Errors.{ok}
use freeos.Prelude.Words.{i32_as_usize}
use freeos.Prelude.UserPtr.{UserPtr}
use freeos.Prelude.Map.{Map, insert, remove, get-insert, get-remove}
use freeos.Prelude.Map.{get as find}
use freeos.FdTable.{
  FlattenObjects, IsFlatten, lists, ax_file_limit, get_file_like, sys_dup, sys_dup2, sys_pipe2,
  dup_fd, add_file_like, panics,
}
use freeos.FdTable.Calls.{OpensPipe, sys_dup2_panics, sys_pipe2-OpensPipe}
use freeos.Prelude.Errors.{LinuxResult, err, einval, ebadf, not_found}
use freeos.Prelude.Words.{has_bits}
use freeos.Prelude.Paths.{Str, same}
use freeos.Prelude.Paths.{get as path_get}
use freeos.Links.{Links, real_path, is_dir}
use freeos.FilePaths.{
  returns, Env, handle_file_path, new, starts_slash, trim, trim_start, trim_end, all_white,
  is_whitespace,
}
use freeos.FdTable.Open.{Fops, S, sys_openat, o_directory}
use freeos.FdTable.Open.Opened.{Opened, sys_openat-Opened}
use freeos.FdTable.Open.Given.{Alike, sys_openat-Alike}

unfoldable at : ℕ → Map ℕ → Option ℕ
at i t = if ltb i ax_file_limit then find i t else none

-- The lowest free identifier below `n`.
unfoldable free : ℕ → Map ℕ → Option ℕ
free zero t = none
free (suc n) t = elim (free n t) [
  | some i ↦ some i
  | none ↦ if is_some (at n t) then none else some n
]

unfoldable add_free : ℕ → Map ℕ → Option ℕ → Option ℕ × Map ℕ
add_free a t none = (none, t)
add_free a t (some i) = (some i, insert i a t)

unfoldable add_at : ℕ → ℕ → Map ℕ → Option ℕ × Map ℕ
add_at i a t =
    if ltb i ax_file_limit && not (is_some (at i t)) then (some i, insert i a t) else (none, t)

unfoldable below : ℕ → Map ℕ → List ℕ
below zero t = []
below (suc n) t = let rest = below n t in if is_some (at n t) then n ∷ rest else rest

abbrev objects : FlattenObjects ℕ
objects = record {
  Table = Map ℕ;
  empty = [];
  get = at;
  add = λ a t. add_free a t (free ax_file_limit t);
  add_at = add_at;
  remove = λ i t. (at i t, remove i t);
  ids = below ax_file_limit;
}

at-insert :
    (i j a : ℕ) (t : Map ℕ)
    → i < ax_file_limit
    → at j (insert i a t) ≡ (if i == j then some a else at j t)
unfolding at
at-insert i j a t small = ground (arith, get-insert i j a t)

free_lem : (n : ℕ) (t : Map ℕ) (i : ℕ) → free n t ≡ some i → (i < n) × (at i t ≡ none)
unfolding free
free_lem zero t i e = cc
free_lem (suc n) t i e = elim (Option-cases (free n t)) [
  | inr (k, found) ↦ let (small, empty) = free_lem n t k found in ground (arith, found)
  | inl full ↦ ground (arith, full)
]

below_lem : (n i : ℕ) (t : Map ℕ) → lists i (below n t) ≡ (ltb i n && is_some (at i t))
unfolding below lists
below_lem zero i t = ground arith
below_lem (suc n) i t = ground (arith, below_lem n i t)

objects-IsFlatten : IsFlatten objects
unfolding at add_at add_free find
objects-IsFlatten = record {
  get-empty = λ i. ground arith;
  bounded = λ i a t e. ground arith;
  add_lem = λ a t. elim (Option-cases (free ax_file_limit t)) [
    | inl full ↦ rw full refl
    | inr (i, found) ↦
        let (small, empty) = free_lem ax_file_limit t i found in
        rw found (empty, small, λ j. at-insert i j a t small)
  ];
  add_at_free = λ i a t empty small. (insert i a t, ground arith, λ j. at-insert i j a t small);
  add_at_refused = λ i a t bad. ground arith;
  remove_gives = λ i t. refl;
  get-remove = λ i j t. ground (arith, get-remove i j t);
  listed = λ i t. ground (arith, below_lem ax_file_limit i t);
}

-- The standard streams: 7 is the input, 8 the output.
abbrev stdio : Map ℕ
stdio = (0, 7) ∷ (1, 8) ∷ (2, 8) ∷ []

stdin_open : get_file_like objects 0 stdio ≡ ok 7
unfolding get_file_like at find
stdin_open = refl

-- The input is open as 3 too.
abbrev dup_stdio : Map ℕ
dup_stdio = (0, 7) ∷ (1, 8) ∷ (2, 8) ∷ (3, 7) ∷ []

dup_gives : sys_dup objects 0 stdio ≡ (ok 3, dup_stdio)
unfolding sys_dup dup_fd get_file_like add_file_like at find free add_free insert
dup_gives = refl

-- The descriptor -1.
sys_dup2_panics_example :
    (sys_dup2 objects 0 0xffffffff stdio ≡ panics) ↔ (1024 ≤ i32_as_usize 0xffffffff)
unfolding at find
sys_dup2_panics_example =
    sys_dup2_panics objects objects-IsFlatten 0 0xffffffff 7 stdio refl (omega arith)

abbrev writable : UserPtr (Unit {0})
writable = record { is_null = false; get_as_ref = ok tt }

sys_pipe2-OpensPipe_example :
    OpensPipe objects objects-IsFlatten 5 6 stdio (sys_pipe2 objects writable 5 6 stdio)
sys_pipe2-OpensPipe_example = sys_pipe2-OpensPipe objects objects-IsFlatten writable 5 6 stdio

-- A file system whose files are those created, in which `/a` is a link to `/f/`.
abbrev env : Env
env = record {
  file_system = record { Disk = List Str; exists = λ d p. true; remove_file = λ d p. (some tt, d) };
  canonicalize = λ s. some s;
  linux_error = λ x. einval;
  file_path = λ fd. err ebadf;
  dir_path = λ fd. err ebadf;
  remove_dir = λ d p. (ok tt, d);
  is_dir_at = λ d p. ok false;
}

abbrev fops : Fops ℕ (List Str)
fops = record {
  File = Unit {0};
  Dir = Unit {0};
  open_file = λ dir p opts d. if opts.create then (ok tt, p ∷ d) else (err not_found, d);
  open_dir = λ dir p opts d. (err not_found, d);
  new_file = λ h p. length p;
  new_dir = λ h p. 0;
  as_dir = λ a. none;
}

abbrev link_path : Str
link_path = 47 ∷ 97 ∷ []

abbrev target : Str
target = 47 ∷ 102 ∷ 47 ∷ []

abbrev no_links : Links
no_links = record { links = []; ref_counts = [] }

abbrev one_link : Links
one_link = record { links = (link_path, target) ∷ []; ref_counts = (target, 1) ∷ [] }

resolves_itself : handle_file_path env no_links 0 link_path ≡ returns (ok link_path)
unfolding handle_file_path new starts_slash real_path path_get trim trim_start trim_end all_white
    is_whitespace same is_dir
resolves_itself = refl

resolves_link : handle_file_path env one_link 0 link_path ≡ returns (ok target)
unfolding handle_file_path new starts_slash real_path path_get trim trim_start trim_end all_white
    is_whitespace same is_dir
resolves_link = refl

-- `O_CREAT | O_RDWR`
abbrev create_flags : ℕ
create_flags = 0o102

sys_openat-Opened_example :
    (r : LinuxResult ℕ × S objects env fops) × (sys_openat objects env fops one_link 0
        (ok link_path)
        create_flags
        ([], stdio)
      ≡ returns r)
    × Opened objects env fops target (has_bits create_flags o_directory) stdio r
sys_openat-Opened_example =
    sys_openat-Opened objects env fops objects-IsFlatten one_link 0 link_path target create_flags []
      stdio resolves_link

sys_openat-Alike_example :
    Alike objects env fops
      (sys_openat objects env fops one_link 0 (ok link_path) create_flags ([], stdio))
      (sys_openat objects env fops no_links 0 (ok link_path) create_flags ([], stdio))
sys_openat-Alike_example =
    sys_openat-Alike objects env fops one_link no_links 0 link_path target link_path create_flags []
      stdio resolves_link resolves_itself
