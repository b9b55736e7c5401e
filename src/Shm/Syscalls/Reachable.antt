-- ===== src/Shm/Syscalls/Reachable.antt =====
-- `sys_shmctl` keeps the manager's maps consistent too, and so does every sequence of calls.
use freeos.Prelude.{ℕ, ◌==◌, inl, inr, Bool-cases}
use freeos.Prelude.UserPtr.{UserPtr}
use freeos.Shm.Segment.{ShmidDs}
use freeos.Prelude.Errors.{Result, ok, err, AxError, LinuxResult}
use freeos.Shm.Segment.{Host, ShmSegment, get_attach_count, mark_for_deletion, set_perm}
use freeos.Shm.Manager.{ShmManager, new_manager, get_by_id, remove_segment}
use freeos.Shm.Manager.Invariant.{IsValid, new_manager-IsValid}
use freeos.Shm.Manager.Remove.{remove_segment-IsValid}
use freeos.Shm.Syscalls.{
  AddrSpaces, World, segment_at, change, sys_shmget, sys_shmat, sys_shmdt, sys_shmctl, delete,
  control, quiet, stat_to, set_from, ipc_rmid, ipc_stat, ipc_set, Controlled,
}
use freeos.Shm.Syscalls.Consistent.{
  Consistent, change-IsValid, mark_for_deletion-Local, set_perm-Local, after_remove-Consistent,
  sys_shmget-Consistent, sys_shmat-Consistent, sys_shmdt-Consistent,
}

module _ (a : AddrSpaces) (h : Host) where
  open a use {AddrSpace}

  delete-Consistent :
      (shmid r : ℕ) (w : World AddrSpace)
      → IsValid w.manager
      → Consistent a h (delete a h shmid r w)
  delete-Consistent shmid r w v =
      let w' : World AddrSpace = change mark_for_deletion r w in
      let v' : IsValid w'.manager =
        change-IsValid mark_for_deletion r w mark_for_deletion-Local v in
      elim (Bool-cases (get_attach_count (segment_at r w') == 0)) [
        | inl gone ↦ rw gone (
            after_remove-Consistent a h w' (remove_segment shmid w'.manager)
              (remove_segment-IsValid shmid v'))
        | inr stays ↦ rw stays v'
      ]

  abbrev Quietly : Controlled a h → Type 0
  Quietly (r, w, out) = IsValid w.manager

  quiet-Quietly :
      (out : LinuxResult ℕ × World AddrSpace) → Consistent a h out → Quietly (quiet a h out)
  quiet-Quietly (r, w) v = v

  stat_to-Quietly :
      (r : ℕ) (w : World AddrSpace) (buf : LinuxResult ShmidDs)
      → IsValid w.manager
      → Quietly (stat_to a h r w buf)
  stat_to-Quietly r w (err e) v = v
  stat_to-Quietly r w (ok buf) v = v

  set_from-Quietly :
      (r : ℕ) (w : World AddrSpace) (buf : LinuxResult ShmidDs)
      → IsValid w.manager
      → Quietly (set_from a h r w buf)
  set_from-Quietly r w (err e) v = v
  set_from-Quietly r w (ok buf) v =
      let p = buf.shm_perm in
      change-IsValid (set_perm h p.uid p.gid p.mode) r w (set_perm-Local h p.uid p.gid p.mode) v

  control-Quietly :
      (shmid cmd : ℕ) (buf : UserPtr ShmidDs) (w : World AddrSpace) (found : Result AxError ℕ)
      → IsValid w.manager
      → Quietly (control a h shmid cmd buf w found)
  control-Quietly shmid cmd buf w (err e) v = v
  control-Quietly shmid cmd buf w (ok r) v = elim (Bool-cases (cmd == ipc_rmid)) [
    | inl rmid ↦ rw rmid (quiet-Quietly (delete a h shmid r w) (delete-Consistent shmid r w v))
    | inr other ↦ rw other (elim (Bool-cases (cmd == ipc_stat)) [
      | inl stat ↦ rw stat (elim (Bool-cases buf.is_null) [
        | inl null ↦ rw null v
        | inr nonnull ↦ rw nonnull (stat_to-Quietly r w buf.get_as_ref v)
      ])
      | inr neither ↦ rw neither (elim (Bool-cases (cmd == ipc_set)) [
        | inl set ↦ rw set (elim (Bool-cases buf.is_null) [
          | inl null ↦ rw null v
          | inr nonnull ↦ rw nonnull (set_from-Quietly r w buf.get_as_ref v)
        ])
        | inr none_of_them ↦ rw none_of_them v
      ])
    ])
  ]

  sys_shmctl-Consistent :
      (shmid cmd : ℕ) (buf : UserPtr ShmidDs) (w : World AddrSpace)
      → IsValid w.manager
      → IsValid (sys_shmctl a h shmid cmd buf w).1.manager
  unfolding sys_shmctl
  sys_shmctl-Consistent shmid cmd buf w v =
      control-Quietly shmid cmd buf w (get_by_id shmid w.manager) v

-- A call of any process at any time, which brings its own address space and attachments; the
-- manager is the one that all processes share.
pub data Step (a : AddrSpaces) : ShmManager → ShmManager → Type 0 where
  shmget :
      (h : Host) (key size flags : ℕ) (w : World a.AddrSpace)
      → Step a w.manager (sys_shmget a h key size flags w).1.manager
  shmat :
      (h : Host) (shmid shmaddr shmflg : ℕ) (w : World a.AddrSpace)
      → Step a w.manager (sys_shmat a h shmid shmaddr shmflg w).1.manager
  shmdt :
      (h : Host) (shmaddr : ℕ) (w : World a.AddrSpace)
      → Step a w.manager (sys_shmdt a h shmaddr w).1.manager
  shmctl :
      (h : Host) (shmid cmd : ℕ) (buf : UserPtr ShmidDs) (w : World a.AddrSpace)
      → Step a w.manager (sys_shmctl a h shmid cmd buf w).1.manager

-- The managers that calls lead to from the first one.
pub data Reach (a : AddrSpaces) : ShmManager → Type 0 where
  start : (store : ℕ → ShmSegment) → Reach a (new_manager store)
  next : {m n : ShmManager} → Reach a m → Step a m n → Reach a n

Step-IsValid : {a : AddrSpaces} {m n : ShmManager} → Step a m n → IsValid m → IsValid n
Step-IsValid {a} (shmget h key size flags w) v = sys_shmget-Consistent a h key size flags w v
Step-IsValid {a} (shmat h shmid shmaddr shmflg w) v =
    sys_shmat-Consistent a h shmid shmaddr shmflg w v
Step-IsValid {a} (shmdt h shmaddr w) v = sys_shmdt-Consistent a h shmaddr w v
Step-IsValid {a} (shmctl h shmid cmd buf w) v = sys_shmctl-Consistent a h shmid cmd buf w v

-- In every state that calls of `shmget`, `shmat`, `shmdt` and `shmctl` lead to from an empty
-- manager, by any processes and in any order, the maps of the manager agree with each other and
-- with the segments.
pub Reach-IsValid : {a : AddrSpaces} {m : ShmManager} → Reach a m → IsValid m
Reach-IsValid (start store) = new_manager-IsValid store
Reach-IsValid (next r s) = Step-IsValid s (Reach-IsValid r)
