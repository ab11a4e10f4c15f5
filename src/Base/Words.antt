-- ===== src/Base/Words.antt =====
-- Machine integers. An int32 is kept as its bit pattern, a number below 2 ^ 32; a signed comparison
-- flips the sign bit of both sides first.
use Prim.Native.Nat.{ℕ, ◌+◌, ◌%◌}
use mathlib.Core.Bool.{Bool}
use baran_os.Base.Tests.{leb}

abbrev pub u32 : ℕ → ℕ
u32 n = n % 4294967296

abbrev pub i32_bias : ℕ → ℕ
i32_bias n = (n + 2147483648) % 4294967296

-- a <= b on int32
abbrev pub i32_leb : ℕ → ℕ → Bool
i32_leb a b = leb (i32_bias a) (i32_bias b)

-- x++ on int32
abbrev pub i32_inc : ℕ → ℕ
i32_inc n = u32 (n + 1)
