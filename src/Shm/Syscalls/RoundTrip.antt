-- ===== src/Shm/Syscalls/RoundTrip.antt =====
-- `sys_shmat` undone by `sys_shmdt`.
use freeos.Prelude.{
  ℕ, ◌+◌, ◌-◌, ◌<◌, ◌≡◌, refl, ◌∙◌, ap, false, not, some, arith, ◌==◌, ◌&&◌, ==_self, if◌then◌else◌,
  none,
}
use freeos.Prelude.Words.{has_bits, usize_mod}
use freeos.Prelude.Errors.{ok}
use freeos.Prelude.Map.{get, insert, get-insert, get-remove}
use freeos.Shm.Segment.{Host, ShmSegment, inc_attach, get_attach_count}
use freeos.Shm.Syscalls.{
  AddrSpaces, World, ShmAttach, segment_at, validate_segment, place, sys_shmat, sys_shmdt, change,
  shm_rdonly,
}
use freeos.Shm.Syscalls.Attach.{Admitted, admitted_lem}
use freeos.Shm.Syscalls.Detach.{detached, detached_lem, shmdt_lem}

-- A segment that may be attached does not wait for its deletion.
unmarked :
    (s : ShmSegment) (flg : ℕ) → validate_segment s flg ≡ ok tt → s.marked_for_deletion ≡ false
unfolding validate_segment
unmarked s flg e = ground (arith, e)

inc_attach_lem :
    (h : Host) (s : ShmSegment)
    → get_attach_count s + 1 < usize_mod
    → (get_attach_count (inc_attach h s) ≡ get_attach_count s + 1)
      × ((inc_attach h s).marked_for_deletion ≡ s.marked_for_deletion)
      × ((inc_attach h s).size ≡ s.size)
unfolding inc_attach get_attach_count
inc_attach_lem h s room = (ground arith, refl, refl)

module _ (a : AddrSpaces) (h : Host) where
  open a use {AddrSpace, map_linear, unmap}

  -- `shmdt` of an attachment whose segment does not wait for its deletion.
  shmdt_keeps :
      (shmaddr j : ℕ) (w : World AddrSpace) (t : ShmAttach) (s : AddrSpace)
      → get shmaddr w.attached ≡ some t
      → unmap w.aspace shmaddr (segment_at t.segment w).size ≡ (ok tt, s)
      → (segment_at t.segment w).marked_for_deletion ≡ false
      → let (res, w') = sys_shmdt a h shmaddr w in
        (res ≡ ok 0)
        × (w'.manager.segments ≡ w.manager.segments)
        × (get_attach_count (segment_at t.segment w')
            ≡ get_attach_count (segment_at t.segment w) - 1)
        × (get j w'.attached ≡ (if shmaddr == j then none else get j w.attached))
  shmdt_keeps shmaddr j w t s recorded unmapped unmarked_it =
      let d = detached_lem h (segment_at t.segment w) in
      let stays : ((detached h (segment_at t.segment w)).marked_for_deletion
            && (get_attach_count (detached h (segment_at t.segment w)) == 0))
          ≡ false =
        ground arith in
      rw (shmdt_lem a h shmaddr w t s recorded unmapped, ==_self t.segment, stays)
        (refl, refl, rw (==_self t.segment) d.0, get-remove shmaddr j w.attached)

  module _ {shmid shmaddr shmflg r : ℕ} {w : World AddrSpace}
      (adm : Admitted a h shmid shmaddr shmflg r w) where
    abbrev record_of : ℕ → ShmAttach
    record_of vaddr = record { id = shmid; addr = vaddr; segment = r }

    abbrev attached_world : ℕ → AddrSpace → World AddrSpace
    attached_world vaddr s = record (change (inc_attach h) r w) {
      aspace = s;
      attached = insert vaddr (record_of vaddr) w.attached;
    }

    shmat_lem :
        (vaddr : ℕ) (s : AddrSpace)
        → place a h shmaddr shmflg (segment_at r w).size w.aspace ≡ ok vaddr
        → map_linear w.aspace vaddr
            (segment_at r w).paddr
            (segment_at r w).size
            (not (has_bits shmflg shm_rdonly))
          ≡ (ok tt, s)
        → sys_shmat a h shmid shmaddr shmflg w ≡ (ok vaddr, attached_world vaddr s)
    unfolding inc_attach
    shmat_lem vaddr s at mapped = rw (admitted_lem a h adm, at, ==_self r, mapped) refl

    -- When `shmat` attaches a segment and the address space takes the mapping out again, `shmdt` of the
    -- address that it returned undoes it: the segment stays in the manager, with as many attachments as
    -- before, the process has no attachment at that address, and every other one is as it was.
    pub sys_shmdt-sys_shmat :
        (vaddr j : ℕ) (s1 s2 : AddrSpace)
        → place a h shmaddr shmflg (segment_at r w).size w.aspace ≡ ok vaddr
        → map_linear w.aspace vaddr
            (segment_at r w).paddr
            (segment_at r w).size
            (not (has_bits shmflg shm_rdonly))
          ≡ (ok tt, s1)
        → unmap s1 vaddr (segment_at r w).size ≡ (ok tt, s2)
        → let (at, w1) = sys_shmat a h shmid shmaddr shmflg w in
          let (res, w2) = sys_shmdt a h vaddr w1 in
          (at ≡ ok vaddr)
          × (res ≡ ok 0)
          × (w2.manager.segments ≡ w.manager.segments)
          × (get_attach_count (segment_at r w2) ≡ get_attach_count (segment_at r w))
          × (get j w2.attached ≡ (if vaddr == j then none else get j w.attached))
    sys_shmdt-sys_shmat vaddr j s1 s2 at mapped unmapped =
        let w1 = attached_world vaddr s1 in
        let t = record_of vaddr in
        let i = inc_attach_lem h (segment_at r w) adm.room in
        let seg : segment_at r w1 ≡ inc_attach h (segment_at r w) = rw (==_self r) refl in
        let recorded : get vaddr w1.attached ≡ some t = rw (get-insert, ==_self vaddr) refl in
        let out : unmap w1.aspace vaddr (segment_at r w1).size ≡ (ok tt, s2) =
          ap (λ x. unmap s1 vaddr x.size) seg ∙ ap (unmap s1 vaddr) i.2 ∙ unmapped in
        let stays : (segment_at r w1).marked_for_deletion ≡ false =
          ap (λ x. x.marked_for_deletion) seg ∙ i.1 ∙ unmarked (segment_at r w) shmflg adm.passes in
        let k = shmdt_keeps vaddr j w1 t s2 recorded out stays in
        let back : get_attach_count (segment_at r w1) ≡ get_attach_count (segment_at r w) + 1 =
          ap get_attach_count seg ∙ i.0 in
        rw (shmat_lem vaddr s1 at mapped) (
          refl,
          k.0,
          k.1,
          k.2 ∙ omega (arith, back),
          k.3 ∙ ground (arith, get-insert vaddr j t w.attached),
        )
