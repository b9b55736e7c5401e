-- ===== src/Mm/Tests.antt =====
-- An address space in which everything is free; it is given by its mappings, each a start and a size.
use freeos.Prelude.{
  ℕ, ◌+◌, ◌≡◌, refl, Bool, true, false, ◌&&◌, ◌||◌, List, [], ◌∷◌, some, arith, subst, leb, ltb,
}
use freeos.Prelude.Errors.{ok, err, einval, ebadf}
use freeos.Mm.{
  AddrSpaces, sys_mmap, start_addr, align_down, page_size, populates, aligned_length, end_of,
  align_up,
}
use freeos.Mm.Ranges.{IsMapping, FailsLike, sys_mmap_keeps_pages}

unfoldable within : List (ℕ × ℕ) → ℕ → Bool
within [] j = false
within ((start, size) ∷ s) j = (leb start j && ltb j (start + size)) || within s j

abbrev spaces : AddrSpaces
spaces = record {
  AddrSpace = List (ℕ × ℕ);
  base = λ s. 0x1000;
  find_free_area = λ s hint size page. some hint;
  map_alloc = λ s start size flags populate page. (ok tt, (start, size) ∷ s);
  unmap = λ s start size. (ok tt, s);
  protect = λ s start size flags. (ok tt, s);
  write_bytes = λ s start page buf. (ok tt, s);
  linux_error = λ e. einval;
}

spaces-IsMapping : IsMapping spaces within
unfolding within
spaces-IsMapping = record {
  map_alloc_maps = λ s s' start size page j flags populate e low high.
      subst (λ r. within r.1 j ≡ true) e (ground arith);
  write_keeps = λ s start page j bytes m. m;
}

-- A private mapping of the descriptor 9, which is not open, and the byte at 0x2800.
sys_mmap_keeps_pages_example :
    let (r, s') = sys_mmap spaces 0x2000 4096 1 2 9 0 (err ebadf) [] in
    (within s' 0x2800 ≡ true) × FailsLike spaces within 0 (err ebadf) r
unfolding populates start_addr page_size align_down aligned_length end_of align_up
sys_mmap_keeps_pages_example =
    sys_mmap_keeps_pages spaces within spaces-IsMapping 0x2000 4096 1 2 9 0 0x2000 0x2800 [] []
      ((0x2000, 4096) ∷ []) (err ebadf) refl refl refl refl (omega arith) (omega arith)
