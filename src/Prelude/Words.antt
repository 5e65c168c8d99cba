-- ===== src/Prelude/Words.antt =====
-- C integers as their bit patterns: an `int64_t` or `uint64_t` is a number below 2 ^ 64, an `int` a
-- number below 2 ^ 32, and a negative value is its two's complement.
use Prim.Native.Nat.{ℕ, ◌+◌, ◌-◌, ◌/◌, ◌%◌, ◌^◌}
use mathlib.Core.Bool.{Bool, not}
use google_lwis.Prelude.Tests.{ltb, ◌==◌, if◌then◌else◌}

-- -n as an `int` and as an `int64_t`.
abbrev pub neg : ℕ → ℕ
neg n = 2 ^ 32 - n

abbrev pub neg64 : ℕ → ℕ
neg64 n = 2 ^ 64 - n

-- Addition and subtraction of 64-bit words.
abbrev pub add64 : ℕ → ℕ → ℕ
add64 a b = (a + b) % 2 ^ 64

abbrev pub sub64 : ℕ → ℕ → ℕ
sub64 a b = (a + 2 ^ 64 - b) % 2 ^ 64

-- `a < b` between `int64_t`.
abbrev pub slt64 : ℕ → ℕ → Bool
slt64 a b = ltb ((a + 2 ^ 63) % 2 ^ 64) ((b + 2 ^ 63) % 2 ^ 64)

-- Bit k of x.
abbrev pub test_bit : ℕ → ℕ → Bool
test_bit x k = (x / 2 ^ k) % 2 == 1

-- `if (ret)`.
abbrev pub nonzero : ℕ → Bool
nonzero n = not (n == 0)

-- An `int` converted to a 64-bit integer: its sign is extended.
abbrev pub sext32 : ℕ → ℕ
sext32 x = if ltb x (2 ^ 31) then x else x + (2 ^ 64 - 2 ^ 32)
