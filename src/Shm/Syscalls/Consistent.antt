-- ===== src/Shm/Syscalls/Consistent.antt =====
-- Every call keeps the manager's maps consistent, whatever the address space does.
use freeos.Prelude.{
  ℕ, ◌≡◌, refl, not, ◌&&◌, ◌||◌, arith, ◌==◌, inl, inr, ltb, Bool-cases, Option-cases,
}
use freeos.Prelude.Map.{get, remove}
use freeos.Prelude.Words.{is_negative, has_bits}
use freeos.Prelude.Errors.{Result, ok, err, AxError, LinuxResult}
use freeos.Shm.Segment.{
  Host, ShmSegment, inc_attach, dec_attach, get_attach_count, set_last_pid, mark_for_deletion,
  set_perm,
}
use freeos.Shm.Manager.{ShmManager, get_by_id, remove_segment, ipc_private}
use freeos.Shm.Manager.Invariant.{IsValid}
use freeos.Shm.Manager.Create.{get_or_create-IsValid}
use freeos.Shm.Manager.Remove.{remove_segment-IsValid, update-IsValid}
use freeos.Shm.Syscalls.{
  AddrSpaces, ShmAttach, World, segment_at, change, sys_shmget, sys_shmat, sys_shmdt, after_map,
  after_place, after_validate, after_get, after_remove, after_unmap, reap, validate_segment, place,
  max_shm_size, shm_rdonly, shm_rnd,
}

-- A change of a segment that leaves its identifier and key alone.
abbrev pub Local : (ShmSegment → ShmSegment) → Type 0
Local f =
    (s : ShmSegment) → ((f s).id ≡ s.id) × ((f s).shmid_ds.shm_perm.key ≡ s.shmid_ds.shm_perm.key)

pub change-IsValid :
    {A : Type 0} (f : ShmSegment → ShmSegment) (r : ℕ) (w : World A)
    → Local f
    → IsValid w.manager
    → IsValid (change f r w).manager
change-IsValid f r w l v = update-IsValid f r (l (w.manager.store r)).0 (l (w.manager.store r)).1 v

inc_attach-Local : (h : Host) → Local (inc_attach h)
unfolding inc_attach
inc_attach-Local h s = (refl, refl)

dec_attach-Local : (h : Host) → Local (dec_attach h)
unfolding dec_attach
dec_attach-Local h s = ground arith

set_last_pid-Local : (pid : ℕ) → Local (set_last_pid pid)
unfolding set_last_pid
set_last_pid-Local pid s = (refl, refl)

pub mark_for_deletion-Local : Local mark_for_deletion
unfolding mark_for_deletion
mark_for_deletion-Local s = (refl, refl)

pub set_perm-Local : (h : Host) (uid gid mode : ℕ) → Local (set_perm h uid gid mode)
unfolding set_perm
set_perm-Local h uid gid mode s = (refl, refl)

module _ (a : AddrSpaces) (h : Host) where
  open a use {AddrSpace, map_linear, unmap}

  abbrev pub Consistent : {B : Type 0} → B × World AddrSpace → Type 0
  Consistent (r, w) = IsValid w.manager

  pub sys_shmget-Consistent :
      (key size flags : ℕ) (w : World AddrSpace)
      → IsValid w.manager
      → IsValid (sys_shmget a h key size flags w).1.manager
  unfolding sys_shmget
  sys_shmget-Consistent key size flags w v =
      elim (Bool-cases (ltb max_shm_size size || (size == 0 && not (key == ipc_private)))) [
        | inl bad ↦ rw bad v
        | inr good ↦ rw good (get_or_create-IsValid h key size flags v)
      ]

  after_map-Consistent :
      (shmid r vaddr : ℕ) (w : World AddrSpace) (out : Result AxError (Unit {0}) × AddrSpace)
      → IsValid w.manager
      → Consistent (after_map a h shmid r vaddr w out)
  after_map-Consistent shmid r vaddr w (err e, s) v =
      change-IsValid (dec_attach h) r (record w { aspace = s }) (dec_attach-Local h) v
  after_map-Consistent shmid r vaddr w (ok u, s) v = v

  after_place-Consistent :
      (shmid shmflg r : ℕ) (w : World AddrSpace) (at : LinuxResult ℕ)
      → IsValid w.manager
      → Consistent (after_place a h shmid shmflg r w at)
  after_place-Consistent shmid shmflg r w (err e) v = v
  after_place-Consistent shmid shmflg r w (ok vaddr) v =
      after_map-Consistent shmid r vaddr w
        (map_linear w.aspace vaddr (segment_at r w).paddr (segment_at r w).size
          (not (has_bits shmflg shm_rdonly)))
        v

  after_validate-Consistent :
      (shmid shmaddr shmflg r : ℕ) (w : World AddrSpace) (passed : LinuxResult (Unit {0}))
      → IsValid w.manager
      → Consistent (after_validate a h shmid shmaddr shmflg r w passed)
  after_validate-Consistent shmid shmaddr shmflg r w (err e) v = v
  after_validate-Consistent shmid shmaddr shmflg r w (ok u) v =
      let w' : World AddrSpace = change (inc_attach h) r w in
      after_place-Consistent shmid shmflg r w'
        (place a h shmaddr shmflg (segment_at r w').size w.aspace)
        (change-IsValid (inc_attach h) r w (inc_attach-Local h) v)

  after_get-Consistent :
      (shmid shmaddr shmflg : ℕ) (w : World AddrSpace) (found : Result AxError ℕ)
      → IsValid w.manager
      → Consistent (after_get a h shmid shmaddr shmflg w found)
  after_get-Consistent shmid shmaddr shmflg w (err e) v = v
  after_get-Consistent shmid shmaddr shmflg w (ok r) v =
      after_validate-Consistent shmid shmaddr shmflg r w (validate_segment (segment_at r w) shmflg)
        v

  pub sys_shmat-Consistent :
      (shmid shmaddr shmflg : ℕ) (w : World AddrSpace)
      → IsValid w.manager
      → IsValid (sys_shmat a h shmid shmaddr shmflg w).1.manager
  unfolding sys_shmat
  sys_shmat-Consistent shmid shmaddr shmflg w v = elim (Bool-cases (is_negative shmid)) [
    | inl bad ↦ rw bad v
    | inr good ↦
        rw good
          (elim (Bool-cases
            (not (has_bits shmflg shm_rnd) && (not (shmaddr == 0) && has_bits shmaddr 4095))) [
              | inl bad ↦ rw bad v
              | inr fine ↦
                  rw fine
                    (after_get-Consistent shmid shmaddr shmflg w (get_by_id shmid w.manager) v)
            ])
  ]

  pub after_remove-Consistent :
      (w : World AddrSpace) (out : Result AxError (Unit {0}) × ShmManager)
      → IsValid out.1
      → Consistent (after_remove a h w out)
  after_remove-Consistent w (err e, m) v = v
  after_remove-Consistent w (ok u, m) v = v

  reap-Consistent :
      (t : ShmAttach) (w : World AddrSpace) → IsValid w.manager → Consistent (reap a h t w)
  reap-Consistent t w v =
      elim (Bool-cases (
        (segment_at t.segment w).marked_for_deletion
        && (get_attach_count (segment_at t.segment w) == 0))) [
          | inl gone ↦ rw gone (
              after_remove-Consistent w (remove_segment t.id w.manager)
                (remove_segment-IsValid t.id v))
          | inr stays ↦ rw stays v
        ]

  after_unmap-Consistent :
      (t : ShmAttach) (w : World AddrSpace) (out : Result AxError (Unit {0}) × AddrSpace)
      → IsValid w.manager
      → Consistent (after_unmap a h t w out)
  after_unmap-Consistent t w (err e, s) v = v
  after_unmap-Consistent t w (ok u, s) v =
      let w' : World AddrSpace = change (dec_attach h) t.segment (record w { aspace = s }) in
      reap-Consistent t (change (set_last_pid h.pid) t.segment w') (
        change-IsValid (set_last_pid h.pid) t.segment w' (set_last_pid-Local h.pid) (
          change-IsValid (dec_attach h) t.segment (record w { aspace = s }) (dec_attach-Local h) v))

  pub sys_shmdt-Consistent :
      (shmaddr : ℕ) (w : World AddrSpace)
      → IsValid w.manager
      → IsValid (sys_shmdt a h shmaddr w).1.manager
  unfolding sys_shmdt
  sys_shmdt-Consistent shmaddr w v = elim (Option-cases (get shmaddr w.attached)) [
    | inl absent ↦ rw (absent, sys_shmdt) v
    | inr (t, recorded) ↦
        let w' : World AddrSpace = record w { attached = remove shmaddr w.attached } in
        rw (recorded, sys_shmdt)
          (after_unmap-Consistent t w' (unmap w.aspace shmaddr (segment_at t.segment w).size) v)
  ]
