-- ===== src/Base/Int.antt =====
-- Go's int and int64 as 64-bit patterns: n stands for n below 2 ^ 63, and for n - 2 ^ 64 from there.
use Prim.Native.Nat.{ℕ, ◌+◌, ◌%◌, ◌^◌}
use mathlib.Core.Bool.{Bool}
use sealhub.Base.Tests.{ltb, leb}

abbrev pub Int64 : Type 0
Int64 = ℕ

abbrev pub int_mod : ℕ
int_mod = 2 ^ 64

abbrev pub int_half : ℕ
int_half = 2 ^ 63

-- The pattern as an offset from the least value: the signed order is the order of offsets.
abbrev pub offset : Int64 → ℕ
offset a = (a + int_half) % int_mod

-- a <= b
abbrev pub le_int : Int64 → Int64 → Bool
le_int a b = leb (offset a) (offset b)

-- a < b
abbrev pub lt_int : Int64 → Int64 → Bool
lt_int a b = ltb (offset a) (offset b)

-- a + 1, which wraps around
abbrev pub inc_int : Int64 → Int64
inc_int a = (a + 1) % int_mod
