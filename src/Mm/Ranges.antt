-- ===== src/Mm/Ranges.antt =====
-- The ranges that the calls work on, and what is left behind when the file cannot be mapped.
use freeos.Prelude.{
  if◌then◌else◌, List, Bool, leb, ◌||◌, min, ◌-◌, ℕ, ◌+◌, ◌%◌, ◌^◌, ◌≤◌, ◌<◌, ◌≡◌, refl, true,
  false, arith, Bool-cases, inl, inr,
}
use freeos.Prelude.Errors.{Result, LinuxResult, AxError, ok, err, einval}
use freeos.Prelude.Words.{usize_mod}
use freeos.Mm.{
  AddrSpaces, contains, page_size, align_down, align_up, end_of, aligned_length, populates,
  start_addr, sys_mmap, mapping_flags, map_private, map_shared, map_huge, map_huge_1gb, Heap,
  sys_brk, MappingFlags, MappedFile, after_write, after_read, after_size, after_file,
}

-- When the addresses stay below 2 ^ 64, the range that `mmap` works on holds the bytes asked for,
-- and begins and ends at a page of the size chosen.
aligned_length-covers :
    (addr len flags : ℕ)
    → addr + len + 2 ^ 30 < usize_mod
    → let page = page_size flags in
      let start = align_down addr page in
      let size = aligned_length addr len page in
      (start ≤ addr) × (addr + len ≤ start + size) × (start % page ≡ 0) × (size % page ≡ 0)
unfolding page_size align_down align_up end_of aligned_length
aligned_length-covers addr len flags small = elim (Bool-cases (contains flags map_huge_1gb)) [
  | inl giga ↦
      rw giga
        (omega (arith, small), omega (arith, small), omega (arith, small), omega (arith, small))
  | inr other ↦ rw other (elim (Bool-cases (contains flags map_huge)) [
    | inl mega ↦
        rw mega
          (omega (arith, small), omega (arith, small), omega (arith, small), omega (arith, small))
    | inr plain ↦
        rw plain
          (omega (arith, small), omega (arith, small), omega (arith, small), omega (arith, small))
  ])
]

-- What axmm says of its address spaces: `map_alloc` that succeeds maps its range, and `write` unmaps nothing.
module _ (a : AddrSpaces) (mapped : a.AddrSpace → ℕ → Bool) where
  open a use {AddrSpace, map_alloc, write_bytes, linux_error}

  pub record IsMapping : Type 0 where
    pub map_alloc_maps :
        (s s' : AddrSpace) (start size page j : ℕ) (flags : MappingFlags) (populate : Bool)
        → map_alloc s start size flags populate page ≡ (ok tt, s')
        → start ≤ j
        → j < start + size
        → mapped s' j ≡ true
    pub write_keeps :
        (s : AddrSpace) (start page j : ℕ) (bytes : List ℕ)
        → mapped s j ≡ true
        → mapped (write_bytes s start page bytes).1 j ≡ true

  -- The call fails as the file does.
  abbrev SizeFails : ℕ → Result AxError ℕ → LinuxResult ℕ → Type 0
  SizeFails offset (err e) r = r ≡ err (linux_error e)
  SizeFails offset (ok size) r =
      if leb (2 ^ 63) offset || leb size offset then r ≡ err einval else Unit {0}

  abbrev pub FailsLike : ℕ → LinuxResult MappedFile → LinuxResult ℕ → Type 0
  FailsLike offset (err e) r = r ≡ err e
  FailsLike offset (ok file) r = SizeFails offset file.size r

  module _ (laws : IsMapping) (start page len offset : ℕ) where
    abbrev Keeps : AddrSpace → LinuxResult ℕ × AddrSpace → Type 0
    Keeps s r = (j : ℕ) → mapped s j ≡ true → mapped r.1 j ≡ true

    write_lem : (r : Result AxError (Unit {0}) × AddrSpace) → (after_write a start r).1 ≡ r.1
    write_lem (err e, s) = refl
    write_lem (ok u, s) = refl

    after_read-Keeps :
        (s : AddrSpace) (r : Result AxError (List ℕ)) → Keeps s (after_read a start page s r)
    after_read-Keeps s (err e) = λ j m. m
    after_read-Keeps s (ok buf) =
        λ j m. rw (write_lem (write_bytes s start page buf)) (laws.write_keeps s start page j buf m)

    after_size-Keeps :
        (file : MappedFile) (s : AddrSpace) (r : Result AxError ℕ)
        → Keeps s (after_size a start page len offset file s r)
    after_size-Keeps file s (err e) = λ j m. m
    after_size-Keeps file s (ok size) = elim (Bool-cases (leb (2 ^ 63) offset || leb size offset)) [
      | inl outside ↦ rw outside (λ j m. m)
      | inr inside ↦ rw inside (after_read-Keeps s (file.read_at offset (min len (size - offset))))
    ]

    after_file-Keeps :
        (s : AddrSpace) (file : LinuxResult MappedFile)
        → Keeps s (after_file a start page len offset s file)
    after_file-Keeps s (err e) = λ j m. m
    after_file-Keeps s (ok file) = after_size-Keeps file s file.size

    after_size-SizeFails :
        (file : MappedFile) (s : AddrSpace) (r : Result AxError ℕ)
        → SizeFails offset r (after_size a start page len offset file s r).0
    after_size-SizeFails file s (err e) = refl
    after_size-SizeFails file s (ok size) =
        elim (Bool-cases (leb (2 ^ 63) offset || leb size offset)) [
          | inl outside ↦ rw outside refl
          | inr inside ↦ rw inside tt
        ]

    after_file-FailsLike :
        (s : AddrSpace) (file : LinuxResult MappedFile)
        → FailsLike offset file (after_file a start page len offset s file).0
    after_file-FailsLike s (err e) = refl
    after_file-FailsLike s (ok file) = after_size-SizeFails file s file.size

  -- `mmap` never takes a file mapping back: when the pages of a mapping with a file were mapped, each
  -- byte of the range is mapped when the call returns, whatever the file does. That is so though the call
  -- fails as the file does: when the descriptor is none of a file, the file has no size, or the offset is negative
  -- or not below the size.
  pub sys_mmap_keeps_pages :
      IsMapping
      → (addr len prot flags fd offset start j : ℕ) (s s1 s2 : AddrSpace)
        (file : LinuxResult MappedFile)
      → contains flags (map_private + map_shared) ≡ false
      → populates flags fd ≡ true
      → start_addr a addr len flags s ≡ (ok start, s1)
      → map_alloc s1 start
          (aligned_length addr len (page_size flags))
          (mapping_flags prot)
          true
          (page_size flags)
        ≡ (ok tt, s2)
      → start ≤ j
      → j < start + aligned_length addr len (page_size flags)
      → let (r, s') = sys_mmap a addr len prot flags fd offset file s in
        (mapped s' j ≡ true) × FailsLike offset file r
  unfolding sys_mmap
  sys_mmap_keeps_pages laws addr len prot flags fd offset start j s s1 s2 file sharing fills at done
        low high =
      let page = page_size flags in
      let size = aligned_length addr len page in
      let there =
        laws.map_alloc_maps s1 s2 start size page j (mapping_flags prot) true done low high in
      rw (sharing, at, fills, done)
        (
          after_file-Keeps laws start page len offset s2 file j there,
          after_file-FailsLike laws start page len offset s2 file,
        )

-- The top of the heap lies in the area that is set aside for it.
abbrev pub IsHeap : ℕ → Heap → Type 0
IsHeap size h = (h.bottom ≤ h.top) × (h.top ≤ h.bottom + size)

-- `brk` keeps the top of the heap in its area, leaves the bottom where it is, and returns the top.
sys_brk-IsHeap :
    (size addr : ℕ) (h : Heap)
    → IsHeap size h
    → let (top, h') = sys_brk size addr h in
      IsHeap size h' × (h'.bottom ≡ h.bottom) × (top ≡ h'.top)
unfolding sys_brk
sys_brk-IsHeap size addr h inside = ground arith
