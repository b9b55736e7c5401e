-- ===== src/Mm.antt =====
-- api/src/imp/mm/mmap.rs and brk.rs: `mmap`, `munmap`, `mprotect` and `brk`. The address space (crate axmm)
-- is a parameter, as is the file behind a descriptor. Sizes and addresses are `usize`, whose sums and
-- differences wrap round.
pub mod Ranges
mod Tests
use freeos.Prelude.{
  ℕ, ◌+◌, ◌-◌, ◌*◌, ◌/◌, ◌%◌, ◌^◌, Bool, true, false, not, ◌&&◌, ◌||◌, List, Option, none, some,
  ltb, leb, ◌==◌, if◌then◌else◌, bit_and, min,
}
use freeos.Prelude.Errors.{
  Result, ok, err, AxError, LinuxError, LinuxResult, einval, enomem, ok_or, map_err,
}
use freeos.Prelude.Words.{usize_mod, u32_mod, align_up_4k}

-- `MappingFlags`; `USER` is always set.
pub record MappingFlags : Type 0 where
  pub read : Bool
  pub write : Bool
  pub execute : Bool

pub record AddrSpaces : Type 1 where
  pub AddrSpace : Type 0
  pub base : AddrSpace → ℕ
  -- the free area of a size at or above a hint, within the whole space, for a page size
  pub find_free_area : AddrSpace → ℕ → ℕ → ℕ → Option ℕ
  -- address, size, permissions, whether the pages are filled now, and the page size
  pub map_alloc :
      AddrSpace → ℕ → ℕ → MappingFlags → Bool → ℕ → Result AxError (Unit {0}) × AddrSpace
  pub unmap : AddrSpace → ℕ → ℕ → Result AxError (Unit {0}) × AddrSpace
  pub protect : AddrSpace → ℕ → ℕ → MappingFlags → Result AxError (Unit {0}) × AddrSpace
  pub write_bytes : AddrSpace → ℕ → ℕ → List ℕ → Result AxError (Unit {0}) × AddrSpace
  pub linux_error : AxError → LinuxError

-- What the call reads of a file: its size, and bytes from an offset.
pub record MappedFile : Type 0 where
  pub size : Result AxError ℕ
  pub read_at : ℕ → ℕ → Result AxError (List ℕ)

abbrev pub contains : ℕ → ℕ → Bool
contains flags mask = bit_and flags mask == mask

abbrev prot_read : ℕ
prot_read = 1

abbrev prot_write : ℕ
prot_write = 2

abbrev prot_exec : ℕ
prot_exec = 4

abbrev prot_growsdown : ℕ
prot_growsdown = 0x01000000

abbrev prot_growsup : ℕ
prot_growsup = 0x02000000

-- `MmapProt` in `MappingFlags`
unfoldable pub mapping_flags : ℕ → MappingFlags
mapping_flags prot = record {
  read = contains prot prot_read;
  write = contains prot prot_write;
  execute = contains prot prot_exec;
}

abbrev pub map_shared : ℕ
map_shared = 0x01

abbrev pub map_private : ℕ
map_private = 0x02

abbrev map_fixed : ℕ
map_fixed = 0x10

abbrev map_anonymous : ℕ
map_anonymous = 0x20

abbrev pub map_huge : ℕ
map_huge = 0x40000

abbrev pub map_huge_1gb : ℕ
map_huge_1gb = 0x40000 + 0x78000000

pub page_size : ℕ → ℕ
page_size flags =
    if contains flags map_huge_1gb then 2 ^ 30 else if contains flags map_huge then 2 ^ 21 else 4096

-- `align_down` and `align_up` to a page size.
pub align_down : ℕ → ℕ → ℕ
align_down x page = x / page * page

pub align_up : ℕ → ℕ → ℕ
align_up x page = (x + (page - 1)) % usize_mod / page * page

pub end_of : ℕ → ℕ → ℕ → ℕ
end_of addr len page = align_up ((addr + len) % usize_mod) page

pub aligned_length : ℕ → ℕ → ℕ → ℕ
aligned_length addr len page = (end_of addr len page + usize_mod - align_down addr page) % usize_mod

-- Whether the mapping is filled from the file.
pub populates : ℕ → ℕ → Bool
populates flags fd = if fd == u32_mod - 1 then false else not (contains flags map_anonymous)

module _ (a : AddrSpaces) where
  open a use {AddrSpace, base, find_free_area, map_alloc, unmap, protect, write_bytes, linux_error}

  abbrev pub or_else : Option ℕ → Option ℕ → Option ℕ
  or_else (some v) o = some v
  or_else none o = o

  abbrev pub unmapped : ℕ → Result AxError (Unit {0}) × AddrSpace → LinuxResult ℕ × AddrSpace
  unmapped start (err e, s) = (err (linux_error e), s)
  unmapped start (ok u, s) = (ok start, s)

  -- Where the mapping goes.
  pub start_addr : ℕ → ℕ → ℕ → AddrSpace → LinuxResult ℕ × AddrSpace
  start_addr addr len flags s =
      let page = page_size flags in
      let start = align_down addr page in
      let size = aligned_length addr len page in
      if contains flags map_fixed
      then if start == 0 then (err einval, s) else unmapped start (unmap s start size)
      else (
        ok_or (or_else (find_free_area s start size page) (find_free_area s (base s) size page))
            enomem,
        s,
      )

  abbrev pub after_write : ℕ → Result AxError (Unit {0}) × AddrSpace → LinuxResult ℕ × AddrSpace
  after_write start (err e, s) = (err (linux_error e), s)
  after_write start (ok u, s) = (ok start, s)

  abbrev pub after_read : ℕ → ℕ → AddrSpace → Result AxError (List ℕ) → LinuxResult ℕ × AddrSpace
  after_read start page s (err e) = (err (linux_error e), s)
  after_read start page s (ok buf) = after_write start (write_bytes s start page buf)

  abbrev pub after_size :
      ℕ → ℕ → ℕ → ℕ → MappedFile → AddrSpace → Result AxError ℕ → LinuxResult ℕ × AddrSpace
  after_size start page len offset file s (err e) = (err (linux_error e), s)
  after_size start page len offset file s (ok file_size) =
      if leb (2 ^ 63) offset || leb file_size offset
      then (err einval, s)
      else after_read start page s (file.read_at offset (min len (file_size - offset)))

  abbrev pub after_file :
      ℕ → ℕ → ℕ → ℕ → AddrSpace → LinuxResult MappedFile → LinuxResult ℕ × AddrSpace
  after_file start page len offset s (err e) = (err e, s)
  after_file start page len offset s (ok file) = after_size start page len offset file s file.size

  -- The pages are mapped before the file is looked up.
  abbrev after_alloc :
      ℕ
      → ℕ
      → ℕ
      → ℕ
      → Bool
      → LinuxResult MappedFile
      → Result AxError (Unit {0}) × AddrSpace
      → LinuxResult ℕ × AddrSpace
  after_alloc start page len offset populate file (err e, s) = (err (linux_error e), s)
  after_alloc start page len offset populate file (ok u, s) =
      if populate then after_file start page len offset s file else (ok start, s)

  abbrev after_start :
      ℕ
      → ℕ
      → ℕ
      → ℕ
      → ℕ
      → ℕ
      → LinuxResult MappedFile
      → LinuxResult ℕ × AddrSpace
      → LinuxResult ℕ × AddrSpace
  after_start addr len prot flags fd offset file (err e, s) = (err e, s)
  after_start addr len prot flags fd offset file (ok start, s) =
      let page = page_size flags in
      after_alloc start page len offset (populates flags fd) file (
        map_alloc s start (aligned_length addr len page) (mapping_flags prot) (populates flags fd)
          page)

  -- `file` is what `File::from_fd(fd)` gives.
  pub sys_mmap :
      ℕ → ℕ → ℕ → ℕ → ℕ → ℕ → LinuxResult MappedFile → AddrSpace → LinuxResult ℕ × AddrSpace
  sys_mmap addr len prot flags fd offset file s =
      if contains flags (map_private + map_shared)
      then (err einval, s)
      else after_start addr len prot flags fd offset file (start_addr addr len flags s)

  unfoldable sys_munmap : ℕ → ℕ → AddrSpace → LinuxResult ℕ × AddrSpace
  sys_munmap addr len s = unmapped 0 (unmap s addr (align_up_4k len))

  unfoldable sys_mprotect : ℕ → ℕ → ℕ → AddrSpace → LinuxResult ℕ × AddrSpace
  sys_mprotect addr len prot s =
      let known : ℕ = 0x03000007 in
      if not (bit_and prot known == prot)
      then (err einval, s)
      else if contains prot (prot_growsdown + prot_growsup)
      then (err einval, s)
      else unmapped 0 (protect s addr (align_up_4k len) (mapping_flags prot))

-- The heap of a process.
pub record Heap : Type 0 where
  pub bottom : ℕ
  pub top : ℕ

-- `user_heap_size` is the platform's constant.
pub sys_brk : ℕ → ℕ → Heap → ℕ × Heap
sys_brk user_heap_size addr h =
    if not (addr == 0) && (leb h.bottom addr && leb addr (h.bottom + user_heap_size))
    then (addr, record h { top = addr })
    else (h.top, h)
