-- ===== src/Shm/Segment/Checks.antt =====
-- What a segment's creation and its checks promise each other.
use freeos.Prelude.{ℕ, ◌+◌, ◌/◌, ◌^◌, ◌≤◌, ◌<◌, ◌≡◌, ◌≢◌, ◌↔◌, true, arith, Option-cases, inl, inr}
use freeos.Prelude.Words.{align_up_4k, page_size_4k, usize_mod}
use freeos.Prelude.Errors.{ok}
use freeos.Shm.Segment.{
  Host, ShmSegment, new, inc_attach, dec_attach, validate, at_address, get_attach_count,
}

validate-at_address :
    (h : Host) (id key size mode vaddr : ℕ)
    → (validate (at_address h id key size mode vaddr) ≡ true)
      ↔ ((0 < size) × (size ≤ 2 ^ 30) × (h.virt_to_phys vaddr ≢ 0))
unfolding validate align_up_4k
validate-at_address h id key size mode vaddr = ground arith

-- A new segment passes `validate` exactly when its size is from 1 to 2 ^ 30 bytes and its physical
-- address is not 0.
validate-new :
    (h : Host) (id key size mode : ℕ) {s : ShmSegment}
    → new h id key size mode ≡ ok s
    → (validate s ≡ true) ↔ ((0 < size) × (size ≤ 2 ^ 30) × (s.paddr ≢ 0))
unfolding new
validate-new h id key size mode {s} e =
    elim (Option-cases (h.alloc_pages (align_up_4k size / page_size_4k))) [
      | inl n ↦ absurd (ground arith)
      | inr (vaddr, n) ↦
          let made : at_address h id key size mode vaddr ≡ s = ground arith in
          rw (← made) (validate-at_address h id key size mode vaddr)
    ]

-- Attaching and detaching again leaves the number of attachments as it was.
pub dec_attach-inc_attach :
    (h k : Host) (s : ShmSegment)
    → get_attach_count s + 1 < usize_mod
    → get_attach_count (dec_attach k (inc_attach h s)) ≡ get_attach_count s
unfolding inc_attach dec_attach get_attach_count
dec_attach-inc_attach h k s b = ground arith
