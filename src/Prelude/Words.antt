-- ===== src/Prelude/Words.antt =====
-- Machine words. An `i32` is its bit pattern, a number below 2 ^ 32; `usize` and `u64` are numbers
-- below 2 ^ 64 (every supported target is a 64-bit one).
use freeos.Prelude.Tests.{leb, ◌==◌, if◌then◌else◌}
use Prim.Native.Nat.{ℕ, ◌+◌, ◌-◌, ◌*◌, ◌/◌, ◌%◌, ◌^◌, bit_and}
use mathlib.Core.Bool.{Bool, not, ◌||◌}

abbrev pub u32_mod : ℕ
u32_mod = 2 ^ 32

abbrev pub usize_mod : ℕ
usize_mod = 2 ^ 64

-- `x < 0` at an `i32`.
abbrev pub is_negative : ℕ → Bool
is_negative x = leb (2 ^ 31) x

-- `x <= 0` at an `i32`.
abbrev pub is_nonpos : ℕ → Bool
is_nonpos x = x == 0 || is_negative x

-- `x as usize` at an `i32`: the sign is extended.
abbrev pub i32_as_usize : ℕ → ℕ
i32_as_usize x = if is_negative x then x + (usize_mod - u32_mod) else x

-- `x as i32` at a `usize`.
abbrev pub usize_as_i32 : ℕ → ℕ
usize_as_i32 x = x % u32_mod

-- `x & mask != 0`.
abbrev pub has_bits : ℕ → ℕ → Bool
has_bits x mask = not (bit_and x mask == 0)

abbrev pub page_size_4k : ℕ
page_size_4k = 4096

-- `align_up_4k`: `(x + 4095) & !4095` on `usize`, which wraps round.
unfoldable pub align_up_4k : ℕ → ℕ
align_up_4k x = (x + 4095) % usize_mod / 4096 * 4096

-- `align_down_4k`: `x & !4095`.
unfoldable pub align_down_4k : ℕ → ℕ
align_down_4k x = x / 4096 * 4096
