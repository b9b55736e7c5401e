-- ===== src/FilePaths.antt =====
-- api/src/path.rs: `FilePath` and `handle_file_path`; api/src/imp/fs/ctl.rs: the calls that make and
-- remove hard links, over the manager of Links. A path is a string of characters. What axfs and the
-- descriptors give is a parameter.
pub mod Parts
pub mod Unlink
mod Tests
use freeos.Prelude.{
  ℕ, zero, suc, ◌+◌, ◌-◌, Bool, true, false, not, ◌&&◌, ◌||◌, List, [], ◌∷◌, ◌++◌, Option, none,
  some, ◌==◌, ltb, leb, if◌then◌else◌, length, take, drop,
}
use freeos.Prelude.Errors.{
  Result, LinuxResult, ok, err, AxError, LinuxError, not_found, ok_or, map_err, ◌>>=◌, enoent,
  eisdir,
}
use freeos.Prelude.Words.{u32_mod}
use freeos.Prelude.Paths.{Str}
use freeos.Links.{
  FileSystem, LinkError, to_ax_error, Links, State, is_dir, is_root, real_path, create_link,
  remove_link,
}

-- A panic, or a value.
pub data Outcome {ℓ} (A : Type ℓ) : Type ℓ where
  panics : Outcome A
  returns : A → Outcome A

abbrev pub slash : ℕ
slash = 47

-- `rfind('/')`
unfoldable pub rfind : Str → Option ℕ
rfind [] = none
rfind (c ∷ s) = elim (rfind s) [
  | some i ↦ some (suc i)
  | none ↦ if c == slash then some 0 else none
]

-- One slash at the end is taken away.
unfoldable pub strip_suffix : Str → Str
strip_suffix s = if is_dir s then take (length s - 1) s else s

abbrev upto : Str → Option ℕ → Result AxError Str
upto s none = err not_found
upto s (some pos) = ok (take (suc pos) s)

pub parent : Str → Result AxError Str
parent p = if is_root p then ok (slash ∷ []) else upto (strip_suffix p) (rfind (strip_suffix p))

-- `&path[start..end]`, which panics where `start` is behind `end`.
abbrev slice : ℕ → ℕ → Str → Outcome Str
slice start end s = if ltb end start then panics else returns (take (end - start) (drop start s))

abbrev end_pos : Str → ℕ
end_pos s = if is_dir s then length s - 1 else length s

abbrev sliced : Outcome Str → Outcome (Result AxError Str)
sliced panics = panics
sliced (returns s) = returns (ok s)

abbrev behind : Str → Option ℕ → Outcome (Result AxError Str)
behind s none = returns (err not_found)
behind s (some pos) = sliced (slice (pos + 1) (end_pos s) s)

pub name : Str → Outcome (Result AxError Str)
name p =
    if is_root p
    then returns (ok (slash ∷ []))
    else behind (strip_suffix p) (rfind (strip_suffix p))

-- `char::is_whitespace`, and `trim`.
unfoldable pub is_whitespace : ℕ → Bool
is_whitespace c =
    (leb 9 c && leb c 13)
    || c == 32
    || c == 0x85
    || c == 0xA0
    || c == 0x1680
    || (leb 0x2000 c && leb c 0x200A)
    || c == 0x2028
    || c == 0x2029
    || c == 0x202F
    || c == 0x205F
    || c == 0x3000

unfoldable pub trim_start : Str → Str
trim_start [] = []
trim_start (c ∷ s) = let rest = trim_start s in if is_whitespace c then rest else c ∷ s

unfoldable pub all_white : Str → Bool
all_white [] = true
all_white (c ∷ s) = is_whitespace c && all_white s

unfoldable pub trim_end : Str → Str
trim_end [] = []
trim_end (c ∷ s) = if all_white (c ∷ s) then [] else c ∷ trim_end s

unfoldable pub trim : Str → Str
trim s = trim_end (trim_start s)

unfoldable pub starts_slash : Str → Bool
starts_slash [] = false
starts_slash (c ∷ s) = c == slash

pub record Env : Type 1 where
  pub file_system : FileSystem
  pub canonicalize : Str → Option Str
  pub linux_error : AxError → LinuxError
  pub file_path : ℕ → LinuxResult Str
  pub dir_path : ℕ → LinuxResult Str
  pub remove_dir : file_system.Disk → Str → LinuxResult (Unit {0}) × file_system.Disk
  pub is_dir_at : file_system.Disk → Str → LinuxResult Bool

module _ (e : Env) where
  open e use {file_system, canonicalize, linux_error, file_path, dir_path, remove_dir, is_dir_at}

  -- The canonical path keeps the slash at the end.
  abbrev pub with_slash : Str → Str → Str
  with_slash path s = if is_dir path && not (is_dir s) then s ++ (slash ∷ []) else s

  abbrev pub asserted : Links → Str → Outcome (Result AxError Str)
  asserted l s = if starts_slash s then returns (ok (real_path l s)) else panics

  abbrev pub canonical : Links → Str → Option Str → Outcome (Result AxError Str)
  canonical l path none = returns (err not_found)
  canonical l path (some s) = asserted l (with_slash path (trim s))

  -- `FilePath::new`
  unfoldable pub new : Links → Str → Outcome (Result AxError Str)
  new l path = canonical l path (canonicalize path)

  unfoldable pub join : Links → Str → Str → Outcome (Result AxError Str)
  join l p path = new l ((if is_dir p then p else p ++ (slash ∷ [])) ++ path)

  -- The `?` of a `FilePath` error in a function on Linux errors.
  abbrev pub linux : Outcome (Result AxError Str) → Outcome (LinuxResult Str)
  linux panics = panics
  linux (returns r) = returns (map_err linux_error r)

  abbrev pub at_fdcwd : ℕ
  at_fdcwd = u32_mod - 100

  abbrev pub of_path : Links → LinuxResult Str → Outcome (LinuxResult Str)
  of_path l (err x) = returns (err x)
  of_path l (ok p) = linux (new l p)

  abbrev pub joined : Links → Str → Outcome (LinuxResult Str) → Outcome (LinuxResult Str)
  joined l path panics = panics
  joined l path (returns (err x)) = returns (err x)
  joined l path (returns (ok base)) = linux (join l base path)

  abbrev pub relative : Links → ℕ → Str → Outcome (LinuxResult Str)
  relative l dirfd path =
      joined l path (if dirfd == at_fdcwd then linux (new l []) else of_path l (dir_path dirfd))

  unfoldable pub handle_file_path : Links → ℕ → Str → Outcome (LinuxResult Str)
  unfolding join
  handle_file_path l dirfd [] = of_path l (file_path dirfd)
  handle_file_path l dirfd (c ∷ s) =
      if starts_slash (c ∷ s) then linux (new l (c ∷ s)) else relative l dirfd (c ∷ s)

  abbrev pub S : Type 0
  S = State file_system

  -- A path from user memory, looked up.
  abbrev pub user_path : Links → ℕ → LinuxResult Str → Outcome (LinuxResult Str)
  user_path l dirfd (err x) = returns (err x)
  user_path l dirfd (ok path) = handle_file_path l dirfd path

  abbrev pub link_result : Result LinkError (Unit {0}) × S → LinuxResult ℕ × S
  link_result (ok u, s) = (ok 0, s)
  link_result (err x, s) = (err (linux_error (to_ax_error x)), s)

  abbrev pub linked :
      Outcome (LinuxResult Str) → Outcome (LinuxResult Str) → S → Outcome (LinuxResult ℕ × S)
  linked panics new_path s = panics
  linked (returns (err x)) new_path s = returns (err x, s)
  linked (returns (ok old)) panics s = panics
  linked (returns (ok old)) (returns (err x)) s = returns (err x, s)
  linked (returns (ok old)) (returns (ok new_path)) s =
      returns (link_result (create_link file_system new_path old s))

  abbrev pub read_both : ℕ → LinuxResult Str → ℕ → LinuxResult Str → S → Outcome (LinuxResult ℕ × S)
  read_both old_dirfd old_path new_dirfd (err x) s =
      returns (elim old_path [ err y ↦ err y | ok o ↦ err x ], s)
  read_both old_dirfd old_path new_dirfd (ok n) s =
      linked (user_path s.inner old_dirfd old_path) (handle_file_path s.inner new_dirfd n) s

  unfoldable pub sys_linkat :
      ℕ → LinuxResult Str → ℕ → LinuxResult Str → S → Outcome (LinuxResult ℕ × S)
  sys_linkat old_dirfd old_path new_dirfd new_path s =
      read_both old_dirfd old_path new_dirfd new_path s

  abbrev pub removed : LinuxResult (Unit {0}) × file_system.Disk → S → LinuxResult ℕ × S
  removed (ok u, d) s = (ok 0, record s { disk = d })
  removed (err x, d) s = (err x, record s { disk = d })

  abbrev pub unlinked : Option Str × S → LinuxResult ℕ × S
  unlinked (none, s) = (err enoent, s)
  unlinked (some p, s) = (ok 0, s)

  abbrev pub unless_dir : Str → LinuxResult Bool → S → LinuxResult ℕ × S
  unless_dir p (err x) s = (err x, s)
  unless_dir p (ok true) s = (err eisdir, s)
  unless_dir p (ok false) s = unlinked (remove_link file_system p s)

  abbrev pub at_removedir : ℕ
  at_removedir = 0x200

  abbrev pub unlink_at : ℕ → Outcome (LinuxResult Str) → S → Outcome (LinuxResult ℕ × S)
  unlink_at flags panics s = panics
  unlink_at flags (returns (err x)) s = returns (err x, s)
  unlink_at flags (returns (ok p)) s = returns (
      if flags == at_removedir
      then removed (remove_dir s.disk p) s
      else unless_dir p (is_dir_at s.disk p) s)

  pub sys_unlinkat : ℕ → LinuxResult Str → ℕ → S → Outcome (LinuxResult ℕ × S)
  sys_unlinkat dirfd path flags s = unlink_at flags (user_path s.inner dirfd path) s
