-- ===== src/Tasks.antt =====
-- core/src/task.rs: the tables of threads, processes, groups and sessions; api/src/imp/task/thread.rs:
-- the calls on identifiers and groups. Processes with their groups are those of crate axprocess, a
-- parameter. A table (crate weak_map) is the map of its live entries.
pub mod Registered
pub mod Groups
mod Tests
use freeos.Prelude.{
  ℕ, ◌≡◌, Bool, true, false, not, List, [], ◌∷◌, Option, none, some, ◌==◌, if◌then◌else◌, map,
}
use freeos.Prelude.Errors.{LinuxResult, ok, err, ok_or, ◌>>=◌, eperm, esrch}
use freeos.Prelude.Map.{Map, get, contains_key, insert}

pub record Processes : Type 1 where
  pub World : Type 0
  pub Process : Type 0
  pub Group : Type 0
  pub Session : Type 0
  pub Thread : Type 0
  pub pid : Process → ℕ
  pub parent : Process → World → Option Process
  pub is_init : Process → Bool
  pub has_data : Process → Bool
  pub group : Process → World → Group
  pub pgid : Group → ℕ
  pub members : Group → World → List Process
  pub session : Group → Session
  pub sid : Session → ℕ
  pub tid : Thread → ℕ
  pub process : Thread → Process
  pub thread_has_data : Thread → Bool
  pub create_group : Process → World → Option Group × World
  pub move_to_group : Process → Group → World → Bool × World

-- `create_group` and `move_to_group` put the process into the group when they succeed, and the new
-- group has the number of its process; when they fail, nothing changes.
pub record IsProcesses (p : Processes) : Type 0 where
  pub created :
      (x : p.Process) (w : p.World) (g : p.Group)
      → (p.create_group x w).0 ≡ some g
      → (p.pgid g ≡ p.pid x) × (p.group x (p.create_group x w).1 ≡ g)
  pub entered :
      (x : p.Process) (g : p.Group) (w : p.World)
      → (p.move_to_group x g w).0 ≡ true
      → p.group x (p.move_to_group x g w).1 ≡ g

module _ (p : Processes) where
  open p use {
    World, Process, Group, Session, Thread, pid, parent, group, pgid, session, sid, tid, process,
    create_group, move_to_group,
  }

  pub record Tables : Type 0 where
    pub threads : Map Thread
    pub processes : Map Process
    pub groups : Map Group
    pub sessions : Map Session

  abbrev add_session : Session → Tables → Tables
  add_session x t =
      if contains_key (sid x) t.sessions
      then t
      else record t { sessions = insert (sid x) x t.sessions }

  abbrev pub add_group : Group → Tables → Tables
  add_group g t =
      if contains_key (pgid g) t.groups
      then t
      else add_session (session g) (record t { groups = insert (pgid g) g t.groups })

  abbrev pub add_process : Process → World → Tables → Tables
  add_process x w t =
      if contains_key (pid x) t.processes
      then t
      else add_group (group x w) (record t { processes = insert (pid x) x t.processes })

  pub add_thread_to_table : Thread → World → Tables → Tables
  add_thread_to_table th w t =
      add_process (process th) w (record t { threads = insert (tid th) th t.threads })

  abbrev values {ℓ} : {V : Type ℓ} → Map V → List V
  values m = map (λ e. e.1) m

  abbrev pub all_processes : Tables → List Process
  all_processes t = values t.processes

  abbrev pub get_thread : ℕ → Tables → LinuxResult Thread
  get_thread k t = ok_or (get k t.threads) esrch

  abbrev pub get_process : ℕ → Tables → LinuxResult Process
  get_process k t = ok_or (get k t.processes) esrch

  abbrev pub get_process_group : ℕ → Tables → LinuxResult Group
  get_process_group k t = ok_or (get k t.groups) esrch

  abbrev get_session : ℕ → Tables → LinuxResult Session
  get_session k t = ok_or (get k t.sessions) esrch

  -- The calls of a process `current`, between which the tables and the world of axprocess change.
  module _ (current : Process) where
    unfoldable sys_getpid : LinuxResult ℕ
    sys_getpid = ok (pid current)

    -- `none` is the panic of `unwrap` where the process has no parent.
    unfoldable sys_getppid : World → Option (LinuxResult ℕ)
    sys_getppid w = elim (parent current w) [ none ↦ none | some x ↦ some (ok (pid x)) ]

    -- The process that a number names; 0 is the caller.
    abbrev pub named : ℕ → Tables → LinuxResult Process
    named k t = if k == 0 then ok current else get_process k t

    abbrev group_number : World → LinuxResult Process → LinuxResult ℕ
    group_number w (err e) = err e
    group_number w (ok x) = ok (pgid (group x w))

    pub sys_getpgid : ℕ → Tables → World → LinuxResult ℕ
    sys_getpgid k t w = group_number w (named k t)

    abbrev pub is_child : Process → World → Bool
    is_child x w = elim (parent x w) [ none ↦ false | some y ↦ pid y == pid current ]

    abbrev pub same_session : Group → Group → Bool
    same_session g h = sid (session g) == sid (session h)

    -- Who may be moved: the caller itself, or its child in the same session.
    abbrev pub permitted : Process → World → LinuxResult (Unit {0})
    permitted x w =
        if pid x == pid current
        then ok tt
        else if not (is_child x w)
        then err esrch
        else if not (same_session (group x w) (group current w))
        then err eperm
        else ok tt

    abbrev pub created : Option Group × World → LinuxResult ℕ × World
    created (none, w) = (err eperm, w)
    created (some g, w) = (ok 0, w)

    abbrev pub entered : Bool × World → LinuxResult ℕ × World
    entered (false, w) = (err eperm, w)
    entered (true, w) = (ok 0, w)

    abbrev pub move_into : Process → LinuxResult Group → World → LinuxResult ℕ × World
    move_into x (err e) w = (err eperm, w)
    move_into x (ok g) w =
        if not (same_session g (group x w)) then (err eperm, w) else entered (move_to_group x g w)

    abbrev pub moved : Process → ℕ → Tables → World → LinuxResult (Unit {0}) → LinuxResult ℕ × World
    moved x target t w (err e) = (err e, w)
    moved x target t w (ok u) =
        if target == pid x
        then created (create_group x w)
        else move_into x (get_process_group target t) w

    -- `pgid` 0 is the process's own number.
    abbrev pub target_of : ℕ → Process → ℕ
    target_of k x = if k == 0 then pid x else k

    abbrev pub set_group : LinuxResult Process → ℕ → Tables → World → LinuxResult ℕ × World
    set_group (err e) k t w = (err e, w)
    set_group (ok x) k t w =
        if target_of k x == pgid (group x w)
        then (ok 0, w)
        else moved x (target_of k x) t w (permitted x w)

    unfoldable pub sys_setpgid : ℕ → ℕ → Tables → World → LinuxResult ℕ × World
    sys_setpgid k group_id t w = set_group (named k t) group_id t w
