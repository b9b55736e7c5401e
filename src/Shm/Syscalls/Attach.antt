-- ===== src/Shm/Syscalls/Attach.antt =====
-- `sys_shmat`: what it leaves behind.
use freeos.Prelude.{ℕ, ◌+◌, ◌<◌, ◌≡◌, refl, false, not, some, arith, ◌==◌, ◌&&◌, ==_self}
use freeos.Prelude.Words.{is_negative, has_bits, usize_mod}
use freeos.Prelude.Errors.{ok, err, AxError, LinuxError}
use freeos.Prelude.Map.{get}
use freeos.Shm.Segment.{Host, inc_attach, get_attach_count}
use freeos.Shm.Segment.Checks.{dec_attach-inc_attach}
use freeos.Shm.Manager.{get_by_id}
use freeos.Shm.Syscalls.{
  AddrSpaces, World, segment_at, validate_segment, place, sys_shmat, change, after_place, shm_rnd,
  shm_rdonly,
}

module _ (a : AddrSpaces) (h : Host) where
  open a use {AddrSpace, map_linear, linux_error}

  -- The segment `r` with identifier `shmid` may be attached, the address arguments are in order, and
  -- the count of attachments has room.
  pub record Admitted (shmid shmaddr shmflg r : ℕ) (w : World AddrSpace) : Type 0 where
    pub nonnegative : is_negative shmid ≡ false
    pub aligned :
        (not (has_bits shmflg shm_rnd) && (not (shmaddr == 0) && has_bits shmaddr 4095)) ≡ false
    pub entry : get shmid w.manager.segments ≡ some r
    pub passes : validate_segment (segment_at r w) shmflg ≡ ok tt
    pub room : get_attach_count (segment_at r w) + 1 < usize_mod

  module _ {shmid shmaddr shmflg r : ℕ} {w : World AddrSpace}
      (adm : Admitted shmid shmaddr shmflg r w) where
    pub admitted_lem :
        sys_shmat a h shmid shmaddr shmflg w
        ≡ after_place a h shmid shmflg r
            (change (inc_attach h) r w)
            (place a h shmaddr shmflg (segment_at r w).size w.aspace)
    unfolding sys_shmat get_by_id inc_attach
    admitted_lem = rw (adm.nonnegative, adm.aligned, by_id, adm.passes, ==_self r)
      where
        by_id : get_by_id shmid w.manager ≡ ok r
        by_id = rw (adm.entry, get_by_id)

    -- If the mapping fails, the count is as it was, and nothing is recorded.
    pub sys_shmat_unmapped :
        (vaddr : ℕ) (s : AddrSpace) (e : AxError)
        → place a h shmaddr shmflg (segment_at r w).size w.aspace ≡ ok vaddr
        → map_linear w.aspace vaddr
            (segment_at r w).paddr
            (segment_at r w).size
            (not (has_bits shmflg shm_rdonly))
          ≡ (err e, s)
        → let (res, w') = sys_shmat a h shmid shmaddr shmflg w in
          (res ≡ err (linux_error e))
          × (get_attach_count (segment_at r w') ≡ get_attach_count (segment_at r w))
          × (w'.attached ≡ w.attached)
    unfolding inc_attach
    sys_shmat_unmapped vaddr s e at unmapped =
        rw (admitted_lem, at, ==_self r, unmapped)
          (refl, rw (==_self r) (dec_attach-inc_attach h h (w.manager.store r) adm.room), refl)

    -- When a segment may be attached but no place is found, `shmat` fails, but the segment stays
    -- counted as attached once more, with no attachment recorded that a detachment could take
    -- back.
    pub sys_shmat_leaks :
        (e : LinuxError)
        → place a h shmaddr shmflg (segment_at r w).size w.aspace ≡ err e
        → let (res, w') = sys_shmat a h shmid shmaddr shmflg w in
          (res ≡ err e)
          × (get_attach_count (segment_at r w') ≡ get_attach_count (segment_at r w) + 1)
          × (w'.attached ≡ w.attached)
    unfolding inc_attach get_attach_count
    sys_shmat_leaks e nowhere = rw (admitted_lem, nowhere) (refl, ground (arith, adm.room), refl)
