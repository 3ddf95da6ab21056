-- ===== src/Prelude/Words.antt =====
-- Machine words as native numbers: the wrap of a 64-bit and of a 32-bit counter.
use Prim.Native.Nat.{ℕ, ◌+◌, ◌-◌, ◌%◌, ◌^◌}

-- uint64_t a - b, at operands in range.
abbrev pub sub64 : ℕ → ℕ → ℕ
sub64 a b = (a + 2 ^ 64 - b) % 2 ^ 64

abbrev pub u64 : ℕ → ℕ
u64 n = n % 2 ^ 64

abbrev pub u32 : ℕ → ℕ
u32 n = n % 2 ^ 32

-- Nanoseconds in a second.
abbrev pub second : ℕ
second = 1_000_000_000
