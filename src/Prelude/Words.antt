-- ===== src/Prelude/Words.antt =====
-- Machine words: the wrap-around of u64 and usize, saturation, and clearing the bits of a mask.
use Prim.Native.Nat.{ℕ, ◌+◌, ◌-◌, ◌%◌, ◌^◌, bit_and}
use Prim.Native.Nat.{min}

abbrev pub u64_mod : ℕ
u64_mod = 2 ^ 64

abbrev pub u32_mod : ℕ
u32_mod = 2 ^ 32

-- usize::MAX and u64::MAX
abbrev pub u64_max : ℕ
u64_max = 2 ^ 64 - 1

abbrev pub u32_max : ℕ
u32_max = 2 ^ 32 - 1

-- `a + b` on u64 and usize
abbrev pub add64 : ℕ → ℕ → ℕ
add64 a b = (a + b) % u64_mod

-- `a - b` on u64 and usize
abbrev pub sub64 : ℕ → ℕ → ℕ
sub64 a b = (a + u64_mod - b) % u64_mod

-- `a.saturating_add(b)` on u64
abbrev pub saturating_add64 : ℕ → ℕ → ℕ
saturating_add64 a b = min (a + b) u64_max

-- `a + b` on u32
abbrev pub add32 : ℕ → ℕ → ℕ
add32 a b = (a + b) % u32_mod

-- `a & !m` on usize
abbrev pub and_not64 : ℕ → ℕ → ℕ
and_not64 a m = bit_and a (u64_max - m)
