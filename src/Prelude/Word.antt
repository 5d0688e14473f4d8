-- ===== src/Prelude/Word.antt =====
-- Fixed-width unsigned integers of Rust as native numbers, and `Duration`.
use Prim.Native.Nat.{ℕ, ◌+◌, ◌*◌, ◌-◌, ◌/◌, ◌%◌, ◌^◌, min}

-- `as u8`, `as u32`, `as u64`: the low bits.
abbrev pub u8 : ℕ → ℕ
u8 x = x % 2 ^ 8

abbrev pub u32 : ℕ → ℕ
u32 x = x % 2 ^ 32

abbrev pub u64 : ℕ → ℕ
u64 x = x % 2 ^ 64

-- `wrapping_add` on `u32`.
abbrev pub wrapping_add : ℕ → ℕ → ℕ
wrapping_add a b = u32 (a + b)

-- `saturating_add` on `u32` and `u64`. `saturating_sub` is `◌-◌`, which stops at 0.
abbrev pub saturating_add_u32 : ℕ → ℕ → ℕ
saturating_add_u32 a b = min (a + b) (2 ^ 32 - 1)

abbrev pub saturating_add_u64 : ℕ → ℕ → ℕ
saturating_add_u64 a b = min (a + b) (2 ^ 64 - 1)

-- A `Duration` is its number of nanoseconds.
abbrev pub from_secs : ℕ → ℕ
from_secs s = s * 1_000_000_000

abbrev pub from_millis : ℕ → ℕ
from_millis ms = ms * 1_000_000

-- `d.as_millis() as u64`.
abbrev pub as_millis_u64 : ℕ → ℕ
as_millis_u64 d = u64 (d / 1_000_000)
