-- ===== src/Shm/Syscalls/Control.antt =====
-- `sys_shmctl`: deletion now or later, and what `IPC_SET` and `IPC_STAT` give.
use freeos.Prelude.{ℕ, ◌<◌, ◌≡◌, refl, true, false, none, some, arith, ◌==◌, ==_self}
use freeos.Prelude.Errors.{ok}
use freeos.Prelude.UserPtr.{UserPtr}
use freeos.Prelude.Map.{get}
use freeos.Shm.Segment.{
  Host, ShmSegment, ShmidDs, get_attach_count, mark_for_deletion, set_perm, get_stat,
}
use freeos.Shm.Manager.{get_by_id}
use freeos.Shm.Syscalls.{
  AddrSpaces, World, segment_at, sys_shmctl, ipc_rmid, ipc_set, ipc_stat, change,
}
use freeos.Shm.Syscalls.Detach.{removed_lem}

mark_for_deletion_count :
    (s : ShmSegment) → get_attach_count (mark_for_deletion s) ≡ get_attach_count s
unfolding mark_for_deletion get_attach_count
mark_for_deletion_count s = refl

module _ (a : AddrSpaces) (h : Host) where
  open a use {AddrSpace}

  by_id :
      (shmid r : ℕ) (w : World AddrSpace)
      → get shmid w.manager.segments ≡ some r
      → get_by_id shmid w.manager ≡ ok r
  unfolding get_by_id
  by_id shmid r w entry = rw (entry, get_by_id)

  -- `IPC_RMID` on a segment that nobody has attached removes it at once.
  sys_shmctl_rmid_now :
      (shmid r : ℕ) (buf : UserPtr ShmidDs) (w : World AddrSpace)
      → get shmid w.manager.segments ≡ some r
      → get_attach_count (segment_at r w) ≡ 0
      → let (res, w', out) = sys_shmctl a h shmid ipc_rmid buf w in
        (res ≡ ok 0) × (get shmid w'.manager.segments ≡ none) × (out ≡ none)
  unfolding sys_shmctl
  sys_shmctl_rmid_now shmid r buf w entry unused =
      let idle : (get_attach_count (mark_for_deletion (segment_at r w)) == 0) ≡ true =
        ground (arith, mark_for_deletion_count (segment_at r w)) in
      let (n, removed, absent, same) =
        removed_lem shmid r (change mark_for_deletion r w).manager entry in
      rw (by_id shmid r w entry, ==_self r, idle, removed) (refl, absent, refl)

  -- `IPC_RMID` on a segment that is attached succeeds and only marks it: the segment keeps its
  -- entry and its count.
  sys_shmctl_rmid_later :
      (shmid r : ℕ) (buf : UserPtr ShmidDs) (w : World AddrSpace)
      → get shmid w.manager.segments ≡ some r
      → 0 < get_attach_count (segment_at r w)
      → let (res, w', out) = sys_shmctl a h shmid ipc_rmid buf w in
        (res ≡ ok 0)
        × (get shmid w'.manager.segments ≡ some r)
        × ((segment_at r w').marked_for_deletion ≡ true)
        × (get_attach_count (segment_at r w') ≡ get_attach_count (segment_at r w))
  unfolding sys_shmctl mark_for_deletion get_attach_count
  sys_shmctl_rmid_later shmid r buf w entry used =
      let busy : (get_attach_count (segment_at r w) == 0) ≡ false = ground arith in
      rw (by_id shmid r w entry, ==_self r, busy) (refl, entry, rw (==_self r), rw (==_self r))

  set_lem :
      (shmid r : ℕ) (given : ShmidDs) (place : UserPtr ShmidDs) (w : World AddrSpace)
      → get shmid w.manager.segments ≡ some r
      → place.is_null ≡ false
      → place.get_as_ref ≡ ok given
      → sys_shmctl a h shmid ipc_set place w ≡ (
        ok 0,
        change (set_perm h given.shm_perm.uid given.shm_perm.gid given.shm_perm.mode) r w,
        none,
      )
  unfolding sys_shmctl
  set_lem shmid r given place w entry nonnull readable =
      rw (by_id shmid r w entry, nonnull, readable) refl

  stat_lem :
      (shmid r : ℕ) (given : ShmidDs) (place : UserPtr ShmidDs) (w : World AddrSpace)
      → get shmid w.manager.segments ≡ some r
      → place.is_null ≡ false
      → place.get_as_ref ≡ ok given
      → sys_shmctl a h shmid ipc_stat place w ≡ (ok 0, w, some (get_stat (segment_at r w)))
  unfolding sys_shmctl
  stat_lem shmid r given place w entry nonnull readable =
      rw (by_id shmid r w entry, nonnull, readable) refl

  -- After `IPC_SET` from a readable structure, `IPC_STAT` gives the data of the segment with the
  -- owner, group and mode of that structure, as `set_perm` sets them.
  sys_shmctl_stat-set :
      (shmid r : ℕ) (given : ShmidDs) (place : UserPtr ShmidDs) (w : World AddrSpace)
      → get shmid w.manager.segments ≡ some r
      → place.is_null ≡ false
      → place.get_as_ref ≡ ok given
      → let set_world = (sys_shmctl a h shmid ipc_set place w).1 in
        (sys_shmctl a h shmid ipc_stat place set_world).2
        ≡ some (
            get_stat (
              set_perm h given.shm_perm.uid given.shm_perm.gid given.shm_perm.mode
                (segment_at r w)))
  sys_shmctl_stat-set shmid r given place w entry nonnull readable =
      let f = set_perm h given.shm_perm.uid given.shm_perm.gid given.shm_perm.mode in
      rw
        (
          set_lem shmid r given place w entry nonnull readable,
          stat_lem shmid r given place (change f r w) entry nonnull readable,
          ==_self r,
        )
        refl
