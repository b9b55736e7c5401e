-- ===== src/Shm/Segment.antt =====
-- core/src/shm.rs: `ShmSegment` and its bookkeeping. `shmid_ds` and `marked_for_deletion` are behind
-- a lock and an atomic; a method returns the segment as it is afterwards. The padding fields
-- `shm_unused` and `_unused1` are always zero and left out. The memory itself, which is given back
-- when the last owner of a segment is dropped, is the allocator's.
pub mod Checks
use freeos.Prelude.{
  ℕ, ◌+◌, ◌-◌, ◌*◌, ◌/◌, ◌%◌, ◌^◌, Bool, true, false, not, ◌||◌, Option, none, some, ltb, ◌==◌,
  if◌then◌else◌, bit_and,
}
use freeos.Prelude.Words.{align_up_4k, page_size_4k, usize_mod}
use freeos.Prelude.Errors.{Result, ok, err, AxError, no_memory}

-- What the segment asks of the rest of the kernel: the wall clock in seconds, the current process,
-- and the page allocator, which answers with a virtual address.
pub record Host : Type 0 where
  pub wall_time : ℕ
  pub pid : ℕ
  pub alloc_pages : ℕ → Option ℕ
  pub virt_to_phys : ℕ → ℕ

pub record IpcPerm : Type 0 where
  pub key : ℕ
  pub uid : ℕ
  pub gid : ℕ
  pub cuid : ℕ
  pub cgid : ℕ
  pub mode : ℕ
  pub seq : ℕ

pub record ShmidDs : Type 0 where
  pub shm_perm : IpcPerm
  pub shm_segsz : ℕ
  pub shm_atime : ℕ
  pub shm_dtime : ℕ
  pub shm_ctime : ℕ
  pub shm_cpid : ℕ
  pub shm_lpid : ℕ
  pub shm_nattch : ℕ

pub record ShmSegment : Type 0 where
  pub id : ℕ
  pub paddr : ℕ
  pub size : ℕ
  pub shmid_ds : ShmidDs
  pub marked_for_deletion : Bool

-- The segment at the address that the allocator gave.
abbrev pub at_address : Host → ℕ → ℕ → ℕ → ℕ → ℕ → ShmSegment
at_address h id key size mode vaddr = record {
  id = id;
  paddr = h.virt_to_phys vaddr;
  size = align_up_4k size;
  shmid_ds = record {
    shm_perm = record { key = key; uid = 0; gid = 0; cuid = 0; cgid = 0; mode = mode; seq = 0 };
    shm_segsz = size;
    shm_atime = 0;
    shm_dtime = 0;
    shm_ctime = h.wall_time;
    shm_cpid = h.pid;
    shm_lpid = 0;
    shm_nattch = 0;
  };
  marked_for_deletion = false;
}

unfoldable pub new : Host → ℕ → ℕ → ℕ → ℕ → Result AxError ShmSegment
new h id key size mode = elim (h.alloc_pages (align_up_4k size / page_size_4k)) [
  | none ↦ err no_memory
  | some vaddr ↦ ok (at_address h id key size mode vaddr)
]

-- `shm_nattch` is a `u64`.
unfoldable pub inc_attach : Host → ShmSegment → ShmSegment
inc_attach h s = record s {
  shmid_ds = record s.shmid_ds {
    shm_nattch = (s.shmid_ds.shm_nattch + 1) % usize_mod;
    shm_atime = h.wall_time;
  };
}

unfoldable pub dec_attach : Host → ShmSegment → ShmSegment
dec_attach h s =
    let n = s.shmid_ds.shm_nattch in
    if ltb 0 n
    then record s {
      shmid_ds = record s.shmid_ds {
        shm_nattch = n - 1;
        shm_dtime = if n - 1 == 0 then h.wall_time else s.shmid_ds.shm_dtime;
      };
    }
    else s

unfoldable pub get_attach_count : ShmSegment → ℕ
get_attach_count s = s.shmid_ds.shm_nattch

unfoldable pub set_last_pid : ℕ → ShmSegment → ShmSegment
set_last_pid pid s = record s { shmid_ds = record s.shmid_ds { shm_lpid = pid } }

-- Whether the mode grants all bits of `access`, moved to the place of the owner, the group or others.
abbrev grants : ℕ → ℕ → Bool
grants mode access = bit_and mode access == access

unfoldable pub check_permissions : ShmSegment → ℕ → ℕ → ℕ → Bool
check_permissions s uid gid access =
    let perm = s.shmid_ds.shm_perm in
    if uid == perm.uid
    then grants perm.mode (access * 64)
    else if gid == perm.gid
    then grants perm.mode (access * 8)
    else grants perm.mode access

unfoldable pub validate : ShmSegment → Bool
validate s =
    let segsz = s.shmid_ds.shm_segsz in
    if ltb 65536 s.shmid_ds.shm_nattch
    then false
    else if ltb s.size segsz || ltb s.size (align_up_4k segsz)
    then false
    else if segsz == 0 || ltb (2 ^ 30) segsz
    then false
    else if s.size == 0 || ltb (2 ^ 30) s.size
    then false
    else not (s.paddr == 0)

unfoldable pub get_stat : ShmSegment → ShmidDs
get_stat s = s.shmid_ds

unfoldable pub set_perm : Host → ℕ → ℕ → ℕ → ShmSegment → ShmSegment
set_perm h uid gid mode s = record s {
  shmid_ds = record s.shmid_ds {
    shm_perm = record s.shmid_ds.shm_perm { uid = uid; gid = gid; mode = mode };
    shm_ctime = h.wall_time;
  };
}

unfoldable pub mark_for_deletion : ShmSegment → ShmSegment
mark_for_deletion s = record s { marked_for_deletion = true }
