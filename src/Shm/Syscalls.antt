-- ===== src/Shm/Syscalls.antt =====
-- api/src/imp/mm/shm.rs: the system calls, and `ProcessShmData` of core/src/shm.rs. The address space
-- (crate axmm) is a parameter, as is the conversion of an `AxError` into a `LinuxError` (axerrno).
pub mod Attach
pub mod Detach
pub mod RoundTrip
pub mod Control
pub mod Consistent
pub mod Reachable
use freeos.Prelude.{
  ℕ, ◌+◌, ◌*◌, ◌/◌, ◌^◌, Bool, true, false, not, ◌&&◌, ◌||◌, List, [], Option, none, some, ltb,
  ◌==◌, if◌then◌else◌, bit_and,
}
use freeos.Prelude.Words.{is_negative, has_bits, align_down_4k}
use freeos.Prelude.Errors.{
  Result, ok, err, AxError, LinuxError, LinuxResult, ok_or, map_err, einval, eidrm, eacces, enomem,
  efault,
}
use freeos.Prelude.Proc.{Proc}
use freeos.Prelude.UserPtr.{UserPtr}
use freeos.Prelude.Errors.{efault}
use freeos.Shm.Segment.{ShmidDs, get_stat, set_perm}
use freeos.Prelude.Map.{Map, get, insert, remove}
use freeos.Shm.Segment.{
  Host, ShmSegment, ShmidDs, inc_attach, dec_attach, set_last_pid, check_permissions, validate,
  get_attach_count, get_stat, set_perm, mark_for_deletion,
}
use freeos.Shm.Manager.{ShmManager, ipc_private, update, get_or_create, get_by_id, remove_segment}

-- The user's address space, and what the calls use of it.
pub record AddrSpaces : Type 1 where
  pub AddrSpace : Type 0
  pub contains_range : AddrSpace → ℕ → ℕ → Bool
  pub base : AddrSpace → ℕ
  -- the free area of a size at or above a hint, within the whole space
  pub find_free_area : AddrSpace → ℕ → ℕ → Option ℕ
  -- virtual and physical address, size, and whether it can be written
  pub map_linear : AddrSpace → ℕ → ℕ → ℕ → Bool → Result AxError (Unit {0}) × AddrSpace
  pub unmap : AddrSpace → ℕ → ℕ → Result AxError (Unit {0}) × AddrSpace
  pub linux_error : AxError → LinuxError

-- `ShmAttach`; its segment is a reference.
pub record ShmAttach : Type 0 where
  pub id : ℕ
  pub addr : ℕ
  pub segment : ℕ

abbrev pub shm_rnd : ℕ
shm_rnd = 0o020000

abbrev pub shm_rdonly : ℕ
shm_rdonly = 0o010000

abbrev pub max_shm_size : ℕ
max_shm_size = 2 ^ 30

-- `validate_segment`
unfoldable pub validate_segment : ShmSegment → ℕ → LinuxResult (Unit {0})
validate_segment s shmflg =
    let access : ℕ = if has_bits shmflg shm_rdonly then 0o4 else 0o6 in
    if s.marked_for_deletion
    then err eidrm
    else if not (validate s)
    then err einval
    else if not (check_permissions s 0 0 access)
    then err eacces
    else ok tt

-- The manager, and the current process: its address space and its attachments.
pub record World (A : Type 0) : Type 0 where
  pub manager : ShmManager
  pub aspace : A
  pub attached : Map ShmAttach

abbrev pub segment_at : {A : Type 0} → ℕ → World A → ShmSegment
segment_at r w = w.manager.store r

abbrev pub change : {A : Type 0} → (ShmSegment → ShmSegment) → ℕ → World A → World A
change f r w = record w { manager = update f r w.manager }

-- The user sees the segment's identifier.
abbrev identifier : ShmManager → Result AxError ℕ → Result AxError ℕ
identifier m (err e) = err e
identifier m (ok r) = ok (m.store r).id

abbrev pub ipc_rmid : ℕ
ipc_rmid = 0

abbrev pub ipc_set : ℕ
ipc_set = 1

abbrev pub ipc_stat : ℕ
ipc_stat = 2

abbrev pub or_else : Option ℕ → Option ℕ → Option ℕ
or_else (some v) o = some v
or_else none o = o

module _ (a : AddrSpaces) (h : Host) where
  open a use {AddrSpace, contains_range, base, find_free_area, map_linear, unmap, linux_error}

  pub sys_shmget : ℕ → ℕ → ℕ → Proc (World AddrSpace) ℕ
  sys_shmget key size flags w =
      if ltb max_shm_size size || (size == 0 && not (key == ipc_private))
      then (err einval, w)
      else let (r, m) = get_or_create h key size flags w.manager in
        (map_err linux_error (identifier m r), record w { manager = m })

  -- Where the segment goes.
  unfoldable pub place : ℕ → ℕ → ℕ → AddrSpace → LinuxResult ℕ
  place shmaddr shmflg size s =
      if has_bits shmflg shm_rnd
      then if shmaddr == 0 then err einval else ok (align_down_4k shmaddr)
      else if contains_range s shmaddr size
      then err einval
      else ok_or (or_else (find_free_area s shmaddr size) (find_free_area s (base s) size)) enomem

  -- What follows the mapping.
  abbrev pub after_map :
      ℕ
      → ℕ
      → ℕ
      → World AddrSpace
      → Result AxError (Unit {0}) × AddrSpace
      → LinuxResult ℕ × World AddrSpace
  after_map shmid r vaddr w (err e, s) =
      (err (linux_error e), change (dec_attach h) r (record w { aspace = s }))
  after_map shmid r vaddr w (ok u, s) = (
    ok vaddr,
    record w {
      aspace = s;
      attached = insert vaddr (record { id = shmid; addr = vaddr; segment = r }) w.attached;
    },
  )

  abbrev pub after_place :
      ℕ → ℕ → ℕ → World AddrSpace → LinuxResult ℕ → LinuxResult ℕ × World AddrSpace
  after_place shmid shmflg r w (err e) = (err e, w)
  after_place shmid shmflg r w (ok vaddr) =
      let s = segment_at r w in
      after_map shmid r vaddr w
        (map_linear w.aspace vaddr s.paddr s.size (not (has_bits shmflg shm_rdonly)))

  -- The segment is counted as attached before its place is chosen.
  abbrev pub after_validate :
      ℕ → ℕ → ℕ → ℕ → World AddrSpace → LinuxResult (Unit {0}) → LinuxResult ℕ × World AddrSpace
  after_validate shmid shmaddr shmflg r w (err e) = (err e, w)
  after_validate shmid shmaddr shmflg r w (ok u) =
      let w' = change (inc_attach h) r w in
      after_place shmid shmflg r w' (place shmaddr shmflg (segment_at r w').size w.aspace)

  abbrev pub after_get :
      ℕ → ℕ → ℕ → World AddrSpace → Result AxError ℕ → LinuxResult ℕ × World AddrSpace
  after_get shmid shmaddr shmflg w (err e) = (err (linux_error e), w)
  after_get shmid shmaddr shmflg w (ok r) =
      after_validate shmid shmaddr shmflg r w (validate_segment (segment_at r w) shmflg)

  pub sys_shmat : ℕ → ℕ → ℕ → Proc (World AddrSpace) ℕ
  sys_shmat shmid shmaddr shmflg w =
      if is_negative shmid
      then (err einval, w)
      else if not (has_bits shmflg shm_rnd) && (not (shmaddr == 0) && has_bits shmaddr 4095)
      then (err einval, w)
      else after_get shmid shmaddr shmflg w (get_by_id shmid w.manager)

  -- The last detachment of a segment that waits for its deletion takes it out of the manager.
  abbrev pub after_remove :
      World AddrSpace → Result AxError (Unit {0}) × ShmManager → LinuxResult ℕ × World AddrSpace
  after_remove w (err e, m) = (err (linux_error e), record w { manager = m })
  after_remove w (ok u, m) = (ok 0, record w { manager = m })

  abbrev pub reap : ShmAttach → World AddrSpace → LinuxResult ℕ × World AddrSpace
  reap t w =
      let s = segment_at t.segment w in
      if s.marked_for_deletion && get_attach_count s == 0
      then after_remove w (remove_segment t.id w.manager)
      else (ok 0, w)

  abbrev pub after_unmap :
      ShmAttach
      → World AddrSpace
      → Result AxError (Unit {0}) × AddrSpace
      → LinuxResult ℕ × World AddrSpace
  after_unmap t w (err e, s) = (err (linux_error e), record w { aspace = s })
  after_unmap t w (ok u, s) = reap t (
      change (set_last_pid h.pid) t.segment
        (change (dec_attach h) t.segment (record w { aspace = s })))

  pub sys_shmdt : ℕ → Proc (World AddrSpace) ℕ
  sys_shmdt shmaddr w = elim (get shmaddr w.attached) [
    | none ↦ (err einval, w)
    | some t ↦
        after_unmap t (record w { attached = remove shmaddr w.attached })
          (unmap w.aspace shmaddr (segment_at t.segment w).size)
  ]

  abbrev pub delete : ℕ → ℕ → World AddrSpace → LinuxResult ℕ × World AddrSpace
  delete shmid r w =
      let w' = change mark_for_deletion r w in
      if get_attach_count (segment_at r w') == 0
      then after_remove w' (remove_segment shmid w'.manager)
      else (ok 0, w')

  -- The result, the world, and what is written to the user's structure.
  abbrev pub Controlled : Type 0
  Controlled = LinuxResult ℕ × World AddrSpace × Option ShmidDs

  abbrev pub quiet : LinuxResult ℕ × World AddrSpace → Controlled
  quiet (r, w) = (r, w, none)

  abbrev pub stat_to : ℕ → World AddrSpace → LinuxResult ShmidDs → Controlled
  stat_to r w (err e) = (err e, w, none)
  stat_to r w (ok buf) = (ok 0, w, some (get_stat (segment_at r w)))

  abbrev pub set_from : ℕ → World AddrSpace → LinuxResult ShmidDs → Controlled
  set_from r w (err e) = (err e, w, none)
  set_from r w (ok buf) =
      let perm = buf.shm_perm in (ok 0, change (set_perm h perm.uid perm.gid perm.mode) r w, none)

  abbrev pub control : ℕ → ℕ → UserPtr ShmidDs → World AddrSpace → Result AxError ℕ → Controlled
  control shmid cmd buf w (err e) = (err (linux_error e), w, none)
  control shmid cmd buf w (ok r) =
      if cmd == ipc_rmid
      then quiet (delete shmid r w)
      else if cmd == ipc_stat
      then if buf.is_null then (err efault, w, none) else stat_to r w buf.get_as_ref
      else if cmd == ipc_set
      then if buf.is_null then (err efault, w, none) else set_from r w buf.get_as_ref
      else (err einval, w, none)

  pub sys_shmctl : ℕ → ℕ → UserPtr ShmidDs → World AddrSpace → Controlled
  sys_shmctl shmid cmd buf w = control shmid cmd buf w (get_by_id shmid w.manager)
