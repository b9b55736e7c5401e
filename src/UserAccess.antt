-- ===== src/UserAccess.antt =====
-- api/src/ptr.rs: the checks before user memory is read or written. The address space (crate axmm) is a
-- parameter: whether a region may be accessed, and whether its pages can be populated; `read` gives the
-- value at an address.
pub mod Terminated
mod Tests
use freeos.Prelude.{
  ℕ, zero, suc, ◌+◌, ◌-◌, ◌*◌, ◌%◌, Bool, not, Option, none, some, ◌==◌, leb, if◌then◌else◌,
}
use freeos.Prelude.Errors.{LinuxResult, ok, err, efault}
use freeos.Prelude.Words.{align_up_4k, align_down_4k, page_size_4k}

pub record Space : Type 0 where
  pub check_region_access : ℕ → ℕ → Bool
  pub populate_area : ℕ → ℕ → LinuxResult (Unit {0})
  pub read : ℕ → ℕ

-- A layout's size and alignment, a power of two: `start & (align - 1) != 0`.
abbrev pub is_aligned : ℕ → ℕ → Bool
is_aligned start align = start % align == 0

module _ (a : Space) where
  open a use {check_region_access, populate_area, read}

  unfoldable check_region : ℕ → ℕ → ℕ → LinuxResult (Unit {0})
  check_region start size align =
      if not (is_aligned start align)
      then err efault
      else if not (check_region_access start size)
      then err efault
      else populate_area (align_down_4k start) (align_up_4k (start + size) - align_down_4k start)

  -- `while ptr >= page`: the pages up to the one of `ptr` are checked. A round makes `page` larger, so
  -- `ptr + 1` rounds are enough.
  pub page_loop : ℕ → ℕ → ℕ → LinuxResult ℕ
  page_loop zero ptr page = ok page
  page_loop (suc rounds) ptr page =
      let rest = page_loop rounds ptr (page + page_size_4k) in
      if leb page ptr
      then if check_region_access page page_size_4k then rest else err efault
      else ok page

  -- The loop over the elements of `size` bytes from `start` on, with fuel; `none` means that the fuel
  -- ran out.
  pub scan_loop : ℕ → ℕ → ℕ → ℕ → ℕ → Option (LinuxResult ℕ)
  scan_loop zero start size len page = none
  scan_loop (suc fuel) start size len page =
      elim (page_loop (suc (start + len * size)) (start + len * size) page) [
        | err e ↦ some (err e)
        | ok page' ↦
            let rest = scan_loop fuel start size (len + 1) page' in
            if read (start + len * size) == 0 then some (ok len) else rest
      ]

  pub check_null_terminated : ℕ → ℕ → ℕ → ℕ → Option (LinuxResult ℕ)
  check_null_terminated fuel start size align =
      if not (is_aligned start align)
      then some (err efault)
      else scan_loop fuel start size 0 (align_down_4k start)
