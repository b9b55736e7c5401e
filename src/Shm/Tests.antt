-- ===== src/Shm/Tests.antt =====
-- The shared memory calls on one address space, whose pages are all free.
use freeos.Prelude.{
  ℕ, if◌then◌else◌, ◌==◌, ◌+◌, ◌≡◌, refl, Bool, true, false, none, some, [], ◌∷◌, arith,
}
use freeos.Prelude.Words.{align_up_4k}
use freeos.Prelude.Errors.{no_memory, ok, err, einval, enomem}
use freeos.Prelude.UserPtr.{UserPtr}
use freeos.Prelude.Map.{get, insert, contains_key}
use freeos.Shm.Segment.{
  Host, ShmSegment, ShmidDs, new, at_address, validate, check_permissions, get_attach_count,
}
use freeos.Shm.Manager.{ShmManager, new_manager, get_or_create, alloc_id, alloc_loop, next_after}
use freeos.Shm.Manager.Invariant.{IsValid, new_manager-IsValid}
use freeos.Shm.Syscalls.{
  AddrSpaces, World, ShmAttach, segment_at, sys_shmget, place, validate_segment, sys_shmat,
  sys_shmdt, sys_shmctl, ipc_rmid,
}
use freeos.Shm.Syscalls.Attach.{Admitted, sys_shmat_leaks}
use freeos.Shm.Syscalls.Detach.{sys_shmdt_last}
use freeos.Shm.Syscalls.RoundTrip.{sys_shmdt-sys_shmat}
use freeos.Shm.Syscalls.Reachable.{Step, start, next, Reach-IsValid}

-- An address space that is given by the number of mappings; pages are found at the hint.
abbrev spaces : AddrSpaces
spaces = record {
  AddrSpace = ℕ;
  contains_range = λ s start size. false;
  base = λ s. 0x1000;
  find_free_area = λ s hint size. some hint;
  map_linear = λ s vaddr paddr size writable. (ok tt, s + 1);
  unmap = λ s vaddr size. (ok tt, s);
  linux_error = λ e. einval;
}

abbrev host : Host
host = record {
  wall_time = 1700;
  pid = 7;
  alloc_pages = λ pages. some 0x8000;
  virt_to_phys = λ v. v + 0x80000000;
}

abbrev segment : ℕ → Bool → ShmSegment
segment n gone = record {
  id = 1;
  paddr = 0x80008000;
  size = 8192;
  shmid_ds = record {
    shm_perm = record { key = 42; uid = 0; gid = 0; cuid = 0; cgid = 0; mode = 0o666; seq = 0 };
    shm_segsz = 5000;
    shm_atime = 0;
    shm_dtime = 0;
    shm_ctime = 1700;
    shm_cpid = 7;
    shm_lpid = 0;
    shm_nattch = n;
  };
  marked_for_deletion = gone;
}

abbrev manager : ℕ → Bool → ShmManager
manager n gone = record {
  store = λ r. segment n gone;
  next_ref = 1;
  segments = (1, 0) ∷ [];
  key_to_id = (42, 1) ∷ [];
  next_id = 2;
}

abbrev attach : ShmAttach
attach = record { id = 1; addr = 0x2000; segment = 0 }

abbrev world : ℕ → Bool → World ℕ
world n gone = record { manager = manager n gone; aspace = 1; attached = (0x2000, attach) ∷ [] }

abbrev fresh_manager : ShmManager
fresh_manager = new_manager (λ r. segment 0 false)

abbrev buffer : UserPtr ShmidDs
buffer = record { is_null = false; get_as_ref = ok (segment 0 false).shmid_ds }

fresh-IsValid : IsValid fresh_manager
fresh-IsValid = new_manager-IsValid (λ r. segment 0 false)

-- The segment with key 42, made in the empty manager.
abbrev created : ShmManager
created = record {
  store = λ r. if r == 0 then at_address host 1 42 5000 0o666 0x8000 else segment 0 false;
  next_ref = 1;
  segments = (1, 0) ∷ [];
  key_to_id = (42, 1) ∷ [];
  next_id = 2;
}

creates : get_or_create host 42 5000 0o1666 fresh_manager ≡ (ok 0, created)
unfolding get_or_create get new_manager alloc_id alloc_loop contains_key new insert next_after
creates = refl

admitted :
    (a : AddrSpaces) (w : World a.AddrSpace)
    → w.manager ≡ manager 0 false
    → Admitted a host 1 0 0 0 w
unfolding get validate_segment validate check_permissions get_attach_count align_up_4k
admitted a w e =
    rw e (record {
      nonnegative = refl;
      aligned = refl;
      entry = refl;
      passes = refl;
      room = omega arith;
    })

-- No area is free.
abbrev full_spaces : AddrSpaces
full_spaces = record spaces { find_free_area = λ s hint size. none }

-- Nothing can be mapped.
abbrev broken_spaces : AddrSpaces
broken_spaces = record spaces { map_linear = λ s vaddr paddr size writable. (err no_memory, s) }

-- The place is 0; the other attachment stays.
sys_shmdt-sys_shmat_example :
    let (at, w1) = sys_shmat spaces host 1 0 0 (world 0 false) in
    let (res, w2) = sys_shmdt spaces host 0 w1 in
    (at ≡ ok 0)
    × (res ≡ ok 0)
    × (w2.manager.segments ≡ (world 0 false).manager.segments)
    × (get_attach_count (segment_at 0 w2) ≡ get_attach_count (segment 0 false))
    × (get 0x2000 w2.attached ≡ (if 0 == 0x2000 then none else get 0x2000 (world 0 false).attached))
unfolding place
sys_shmdt-sys_shmat_example =
    sys_shmdt-sys_shmat spaces host (admitted spaces (world 0 false) refl) 0 0x2000 2 2 refl refl
      refl

sys_shmat_leaks_example :
    let (res, w') = sys_shmat full_spaces host 1 0 0 (world 0 false) in
    (res ≡ err enomem)
    × (get_attach_count (segment_at 0 w') ≡ 0 + 1)
    × (w'.attached ≡ (0x2000, attach) ∷ [])
unfolding place get_attach_count
sys_shmat_leaks_example =
    sys_shmat_leaks full_spaces host (admitted full_spaces (world 0 false) refl) enomem refl

sys_shmdt_last_example :
    let (res, w') = sys_shmdt spaces host 0x2000 (world 1 true) in
    (res ≡ ok 0) × (get 1 w'.manager.segments ≡ none) × (get 0x2000 w'.attached ≡ none)
unfolding get get_attach_count
sys_shmdt_last_example =
    sys_shmdt_last spaces host 0x2000 (world 1 true) attach 1 refl refl refl refl refl

Reach-IsValid_example :
    IsValid
      (sys_shmctl spaces host 1 ipc_rmid buffer (record (world 0 false) {
        manager =
            (sys_shmget spaces host 42 5000 0o1666
              (record (world 0 false) { manager = fresh_manager })).1.manager;
      })).1.manager
Reach-IsValid_example = Reach-IsValid (
    next
      (next (start (λ r. segment 0 false))
        (Step.shmget host 42 5000 0o1666 (record (world 0 false) { manager = fresh_manager })))
      (Step.shmctl host 1 ipc_rmid buffer (record (world 0 false) {
        manager =
            (sys_shmget spaces host 42 5000 0o1666
              (record (world 0 false) { manager = fresh_manager })).1.manager;
      })))
