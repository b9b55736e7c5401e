-- ===== src/Shm/Syscalls/Detach.antt =====
-- `sys_shmdt`, and the deletion that `sys_shmctl` asks for and the last detachment carries out.
use freeos.Prelude.{
  ℕ, ◌-◌, ◌<◌, ◌≡◌, refl, ap, true, false, none, some, arith, ◌==◌, ==_self, ◌&&◌, ◌⊎◌,
}
use mathlib.Core.Path.{fun_ext}
use freeos.Prelude.Errors.{ok}
use freeos.Prelude.Map.{get, remove, get-remove}
use freeos.Shm.Segment.{Host, ShmSegment, dec_attach, get_attach_count, set_last_pid}
use freeos.Shm.Manager.{remove_segment, forget_key, ShmManager}
use freeos.Shm.Syscalls.{AddrSpaces, ShmAttach, World, segment_at, sys_shmdt, reap, change}

-- `remove_segment` of an entry.
pub removed_lem :
    (id r : ℕ) (m : ShmManager)
    → get id m.segments ≡ some r
    → (n : ShmManager) × (remove_segment id m ≡ (ok tt, n))
      × (get id n.segments ≡ none)
      × (n.store ≡ m.store)
unfolding remove_segment
removed_lem id r m at = (
  forget_key r (record m { segments = remove id m.segments }),
  rw (at, remove_segment),
  ground (arith, get-remove id id m.segments),
  ground arith,
)

-- What a detachment does to the segment.
pub detached : Host → ShmSegment → ShmSegment
detached h s = set_last_pid h.pid (dec_attach h s)

pub detached_lem :
    (h : Host) (s : ShmSegment)
    → (get_attach_count (detached h s) ≡ get_attach_count s - 1)
      × ((detached h s).marked_for_deletion ≡ s.marked_for_deletion)
unfolding detached set_last_pid dec_attach get_attach_count
detached_lem h s = ground arith

change-change :
    {A : Type 0} (f g : ShmSegment → ShmSegment) (r : ℕ) (w : World A)
    → change f r (change g r w) ≡ change (λ s. f (g s)) r w
change-change f g r w =
    ap (λ st. record w { manager = record w.manager { store = st } }) (fun_ext (λ q. ground arith))

module _ (a : AddrSpaces) (h : Host) where
  open a use {AddrSpace, unmap}

  abbrev pub left_with : ShmAttach → ℕ → AddrSpace → World AddrSpace → World AddrSpace
  left_with t shmaddr s w =
      change (detached h) t.segment (record w { aspace = s; attached = remove shmaddr w.attached })

  pub shmdt_lem :
      (shmaddr : ℕ) (w : World AddrSpace) (t : ShmAttach) (s : AddrSpace)
      → get shmaddr w.attached ≡ some t
      → unmap w.aspace shmaddr (segment_at t.segment w).size ≡ (ok tt, s)
      → sys_shmdt a h shmaddr w ≡ reap a h t (left_with t shmaddr s w)
  unfolding sys_shmdt detached
  shmdt_lem shmaddr w t s recorded unmapped =
      rw (recorded, sys_shmdt, unmapped)
        (ap (reap a h t) (
          change-change (set_last_pid h.pid) (dec_attach h) t.segment
            (record w { aspace = s; attached = remove shmaddr w.attached })))

  -- When the unmapping succeeds, `shmdt` of the last attachment of a segment that waits for its
  -- deletion takes the segment out of the manager, and the attachment out of the process.
  pub sys_shmdt_last :
      (shmaddr : ℕ) (w : World AddrSpace) (t : ShmAttach) (s : AddrSpace)
      → get shmaddr w.attached ≡ some t
      → unmap w.aspace shmaddr (segment_at t.segment w).size ≡ (ok tt, s)
      → (segment_at t.segment w).marked_for_deletion ≡ true
      → get_attach_count (segment_at t.segment w) ≡ 1
      → get t.id w.manager.segments ≡ some t.segment
      → let (res, w') = sys_shmdt a h shmaddr w in
        (res ≡ ok 0) × (get t.id w'.manager.segments ≡ none) × (get shmaddr w'.attached ≡ none)
  sys_shmdt_last shmaddr w t s recorded unmapped marked one entry =
      let (n, removed, absent, same) =
        removed_lem t.id t.segment (left_with t shmaddr s w).manager entry in
      let d = detached_lem h (segment_at t.segment w) in
      let gone : ((detached h (segment_at t.segment w)).marked_for_deletion
            && (get_attach_count (detached h (segment_at t.segment w)) == 0))
          ≡ true =
        ground arith in
      rw (shmdt_lem shmaddr w t s recorded unmapped, ==_self t.segment, gone, removed)
        (refl, absent, rw (get-remove, ==_self shmaddr))

  -- When the unmapping succeeds, and the segment does not wait for its deletion or is attached
  -- more than once, `shmdt` leaves it in the manager, with one attachment less, and takes the
  -- attachment out of the process.
  sys_shmdt_other :
      (shmaddr : ℕ) (w : World AddrSpace) (t : ShmAttach) (s : AddrSpace)
      → get shmaddr w.attached ≡ some t
      → unmap w.aspace shmaddr (segment_at t.segment w).size ≡ (ok tt, s)
      → ((segment_at t.segment w).marked_for_deletion ≡ false)
        ⊎ (1 < get_attach_count (segment_at t.segment w))
      → let (res, w') = sys_shmdt a h shmaddr w in
        (res ≡ ok 0)
        × (w'.manager.segments ≡ w.manager.segments)
        × (get_attach_count (segment_at t.segment w')
            ≡ get_attach_count (segment_at t.segment w) - 1)
        × (get shmaddr w'.attached ≡ none)
  sys_shmdt_other shmaddr w t s recorded unmapped other =
      let d = detached_lem h (segment_at t.segment w) in
      let stays : ((detached h (segment_at t.segment w)).marked_for_deletion
            && (get_attach_count (detached h (segment_at t.segment w)) == 0))
          ≡ false =
        ground arith in
      rw (shmdt_lem shmaddr w t s recorded unmapped, ==_self t.segment, stays)
        (refl, refl, rw (==_self t.segment) d.0, rw (get-remove, ==_self shmaddr))
