-- ===== src/Prelude/Int64.antt =====
-- Go's 64-bit words as their bit patterns: a number below 2 ^ 64, of which those from 2 ^ 63 on
-- stand for the negative numbers. Arithmetic wraps around, as it does in Go.
use Prim.Native.Nat.{ℕ, ◌+◌, ◌%◌, ◌<◌}
use mathlib.Core.Path.{◌≡◌}
use mathlib.Core.Bool.{Bool}
use native.Mathlib.Omega.{arith}
use web_server.Prelude.Tests.{ltb, leb}

abbrev pub two_63 : ℕ
two_63 = 0x8000_0000_0000_0000

abbrev pub two_64 : ℕ
two_64 = 0x1_0000_0000_0000_0000

-- `Add(1)` and `Add(-1)`.
abbrev pub inc : ℕ → ℕ
inc n = (n + 1) % two_64

abbrev pub dec : ℕ → ℕ
dec n = (n + 0xFFFF_FFFF_FFFF_FFFF) % two_64

-- `a < b` and `a <= b` between signed words.
abbrev pub slt : ℕ → ℕ → Bool
slt a b = ltb ((a + two_63) % two_64) ((b + two_63) % two_64)

abbrev pub sle : ℕ → ℕ → Bool
sle a b = leb ((a + two_63) % two_64) ((b + two_63) % two_64)

-- A word that is neither negative nor zero.
abbrev pub IsPositive : ℕ → Type 0
IsPositive n = (0 < n) × (n < two_63)

pub dec-inc : (n : ℕ) → n < two_64 → dec (inc n) ≡ n
dec-inc n h = omega arith
