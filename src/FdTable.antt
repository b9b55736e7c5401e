-- ===== src/FdTable.antt =====
-- api/src/file/mod.rs: the file descriptor table, and the calls on it in api/src/imp/fs/fd_ops.rs and
-- api/src/imp/fs/pipe.rs. The table itself, `FlattenObjects` of the crate flatten_objects, is a
-- parameter with the laws that its documentation states. A descriptor is an `i32`, a bit pattern;
-- `fd as usize` extends its sign. The lock is held for a whole operation.
pub mod Copy
pub mod Calls
pub mod Open
mod Tests
use freeos.Prelude.{
  ℕ, ◌||◌, ◌<◌, ◌≤◌, ◌≡◌, ◌≢◌, ◌⊎◌, Bool, true, false, not, List, [], ◌∷◌, Option, none, some, ◌==◌,
  if◌then◌else◌, is_some,
}
use freeos.Prelude.Errors.{Result, ok, err, LinuxError, LinuxResult, ok_or, ebadf, emfile}
use freeos.Prelude.Words.{i32_as_usize, usize_as_i32, has_bits, is_negative, usize_mod}
use freeos.Prelude.UserPtr.{UserPtr}

abbrev pub ax_file_limit : ℕ
ax_file_limit = 1024

-- The identifier is among those listed.
pub lists : ℕ → List ℕ → Bool
lists i [] = false
lists i (j ∷ is) = if j == i then true else lists i is

-- `FlattenObjects<A, 1024>`; a failed `add` or `add_at` hands the object back.
pub record FlattenObjects (A : Type 0) : Type 1 where
  pub Table : Type 0
  pub empty : Table
  pub get : ℕ → Table → Option A
  pub add : A → Table → Option ℕ × Table
  pub add_at : ℕ → A → Table → Option ℕ × Table
  pub remove : ℕ → Table → Option A × Table
  pub ids : Table → List ℕ

module _ {A : Type 0} (o : FlattenObjects A) where
  open o use {Table, empty, get, add, add_at, remove, ids}

  -- The table holds one more object.
  abbrev pub Holds : ℕ → A → Table → Table → Type 0
  Holds i a t t' = (j : ℕ) → get j t' ≡ (if i == j then some a else get j t)

  -- What `add` and `add_at` gave.
  abbrev pub Added : A → Table → Option ℕ × Table → Type 0
  Added a t (none, t') = t' ≡ t
  Added a t (some i, t') = (get i t ≡ none) × (i < ax_file_limit) × Holds i a t t'

  -- The documented behaviour.
  pub record IsFlatten : Type 0 where
    pub get-empty : (i : ℕ) → get i empty ≡ none
    -- there is no object at or above the limit
    pub bounded : (i : ℕ) (a : A) (t : Table) → get i t ≡ some a → i < ax_file_limit
    pub add_lem : (a : A) (t : Table) → Added a t (add a t)
    pub add_at_free :
        (i : ℕ) (a : A) (t : Table)
        → get i t ≡ none
        → i < ax_file_limit
        → (t' : Table) × (add_at i a t ≡ (some i, t')) × Holds i a t t'
    pub add_at_refused :
        (i : ℕ) (a : A) (t : Table)
        → (get i t ≢ none) ⊎ (ax_file_limit ≤ i)
        → add_at i a t ≡ (none, t)
    pub remove_gives : (i : ℕ) (t : Table) → (remove i t).0 ≡ get i t
    pub get-remove :
        (i j : ℕ) (t : Table) → get j (remove i t).1 ≡ (if i == j then none else get j t)
    -- `ids` lists the objects
    pub listed : (i : ℕ) (t : Table) → lists i (ids t) ≡ is_some (get i t)

  -- `copy_inner`: the loop over the identifiers; the error of `add_at` is thrown away.
  abbrev pub copied : ℕ → Option A → Table → Table
  copied i none n = n
  copied i (some a) n = (add_at i a n).1

  pub copy_ids : List ℕ → Table → Table → Table
  copy_ids [] t n = n
  copy_ids (i ∷ is) t n = copy_ids is t (copied i (get i t) n)

  pub copy_inner : Table → Table
  copy_inner t = copy_ids (ids t) t empty

  pub remove_ids : List ℕ → Table → Table
  remove_ids [] t = t
  remove_ids (i ∷ is) t = remove_ids is (remove i t).1

  pub clear : Table → Table
  clear t = remove_ids (ids t) t

  -- `sync_all`: the first error ends the loop; `fsync` gives its result for each file.
  abbrev synced : LinuxResult (Unit {0}) → LinuxResult (Unit {0}) → LinuxResult (Unit {0})
  synced (err e) rest = err e
  synced (ok u) rest = rest

  unfoldable sync_ids : (A → LinuxResult (Unit {0})) → List ℕ → Table → LinuxResult (Unit {0})
  sync_ids fsync [] t = ok tt
  sync_ids fsync (i ∷ is) t =
      let rest = sync_ids fsync is t in
      elim (get i t) [ none ↦ rest | some a ↦ synced (fsync a) rest ]

  unfoldable sync_all : (A → LinuxResult (Unit {0})) → Table → LinuxResult (Unit {0})
  sync_all fsync t = sync_ids fsync (ids t) t

  pub get_file_like : ℕ → Table → LinuxResult A
  get_file_like fd t = ok_or (get (i32_as_usize fd) t) ebadf

  abbrev pub descriptor : Option ℕ × Table → LinuxResult ℕ × Table
  descriptor (none, t) = (err emfile, t)
  descriptor (some i, t) = (ok (usize_as_i32 i), t)

  pub add_file_like : A → Table → LinuxResult ℕ × Table
  add_file_like a t = descriptor (add a t)

  abbrev pub closed : Option A × Table → LinuxResult (Unit {0}) × Table
  closed (none, t) = (err ebadf, t)
  closed (some a, t) = (ok tt, t)

  pub close_file_like : ℕ → Table → LinuxResult (Unit {0}) × Table
  close_file_like fd t = closed (remove (i32_as_usize fd) t)

  abbrev zero_of : LinuxResult (Unit {0}) × Table → LinuxResult ℕ × Table
  zero_of (err e, t) = (err e, t)
  zero_of (ok u, t) = (ok 0, t)

  pub sys_close : ℕ → Table → LinuxResult ℕ × Table
  sys_close fd t = zero_of (close_file_like fd t)

  abbrev add_found : LinuxResult A → Table → LinuxResult ℕ × Table
  add_found (err e) t = (err e, t)
  add_found (ok a) t = add_file_like a t

  pub dup_fd : ℕ → Table → LinuxResult ℕ × Table
  dup_fd old_fd t = add_found (get_file_like old_fd t) t

  pub sys_dup : ℕ → Table → LinuxResult ℕ × Table
  sys_dup old_fd t = dup_fd old_fd t

  -- A call returns, or it panics.
  pub data Outcome : Type 0 where
    returns : LinuxResult ℕ → Table → Outcome
    panics : Outcome

  abbrev placed : ℕ → Option ℕ × Table → Outcome
  placed new_fd (none, t) = panics
  placed new_fd (some i, t) = returns (ok new_fd) t

  abbrev dup2_found : ℕ → ℕ → Option A → Table → Outcome
  dup2_found old_fd new_fd none t = returns (err ebadf) t
  dup2_found old_fd new_fd (some a) t =
      if old_fd == new_fd
      then returns (ok new_fd) t
      else placed new_fd (add_at (i32_as_usize new_fd) a (remove (i32_as_usize new_fd) t).1)

  pub sys_dup2 : ℕ → ℕ → Table → Outcome
  sys_dup2 old_fd new_fd t = dup2_found old_fd new_fd (get (i32_as_usize old_fd) t) t

  -- The two ends of a new pipe get a descriptor each; without a second one the first is closed
  -- again, and `unwrap` panics if it is not there. The result holds what is written to `fds`.
  pub data Piped : Type 0 where
    piped : LinuxResult (ℕ × ℕ) → Table → Piped
    pipe_panics : Piped

  abbrev undone : LinuxError → LinuxResult (Unit {0}) × Table → Piped
  undone e (err x, t) = pipe_panics
  undone e (ok u, t) = piped (err e) t

  abbrev pub second_added : ℕ → LinuxResult ℕ × Table → Piped
  second_added read_fd (err e, t) = undone e (close_file_like read_fd t)
  second_added read_fd (ok write_fd, t) = piped (ok (read_fd, write_fd)) t

  abbrev pub first_added : A → LinuxResult ℕ × Table → Piped
  first_added write_end (err e, t) = piped (err e) t
  first_added write_end (ok read_fd, t) = second_added read_fd (add_file_like write_end t)

  abbrev pub pipe_at : LinuxResult (Unit {0}) → A → A → Table → Piped
  pipe_at (err e) read_end write_end t = piped (err e) t
  pipe_at (ok u) read_end write_end t = first_added write_end (add_file_like read_end t)

  pub sys_pipe2 : UserPtr (Unit {0}) → A → A → Table → Piped
  sys_pipe2 fds read_end write_end t = pipe_at fds.get_as_ref read_end write_end t

  abbrev f_dupfd : ℕ
  f_dupfd = 0

  abbrev f_setfl : ℕ
  f_setfl = 4

  abbrev f_dupfd_cloexec : ℕ
  f_dupfd_cloexec = 1030

  abbrev o_nonblock : ℕ
  o_nonblock = 0o4000

  abbrev zero_unless : LinuxResult (Unit {0}) → LinuxResult ℕ
  zero_unless (err e) = err e
  zero_unless (ok u) = ok 0

  abbrev set_flags : (A → Bool → LinuxResult (Unit {0})) → Bool → LinuxResult A → LinuxResult ℕ
  set_flags set_nonblocking nonblocking (err e) = err e
  set_flags set_nonblocking nonblocking (ok a) = zero_unless (set_nonblocking a nonblocking)

  -- `set_nonblocking` gives what the file's own method returns.
  unfoldable sys_fcntl :
      (A → Bool → LinuxResult (Unit {0})) → ℕ → ℕ → ℕ → Table → LinuxResult ℕ × Table
  sys_fcntl set_nonblocking fd cmd arg t =
      if cmd == f_dupfd || cmd == f_dupfd_cloexec
      then dup_fd fd t
      else if cmd == f_setfl
      then if fd == 0 || (fd == 1 || fd == 2)
        then (ok 0, t)
        else (set_flags set_nonblocking (has_bits arg o_nonblock) (get_file_like fd t), t)
      else (ok 0, t)
