-- ===== src/Base/Words.antt =====
-- Machine words: the moduli, and arithmetic that wraps as unsigned C++ arithmetic does.
use Prim.Native.Nat.{ℕ, ◌+◌, ◌-◌, ◌*◌, ◌%◌, ◌≤◌, ◌<◌}
use mathlib.Core.Path.{◌≡◌}
use native.Mathlib.Omega.{arith}
use projeto_bruxo.Base.Tests.{ltb, if◌then◌else◌}

abbrev pub u8_mod : ℕ
u8_mod = 256

abbrev pub u16_mod : ℕ
u16_mod = 65536

abbrev pub u32_mod : ℕ
u32_mod = 4294967296

abbrev pub u64_mod : ℕ
u64_mod = 18446744073709551616

unfoldable pub add64 : ℕ → ℕ → ℕ
add64 a b = (a + b) % u64_mod

unfoldable pub sub64 : ℕ → ℕ → ℕ
sub64 a b = (a + u64_mod - b) % u64_mod

unfoldable pub mul64 : ℕ → ℕ → ℕ
mul64 a b = (a * b) % u64_mod

pub add64_lem : (a b : ℕ) → a + b < u64_mod → add64 a b ≡ a + b
unfolding add64
add64_lem a b h = omega arith

pub sub64_lem : (a b : ℕ) → a < u64_mod → b ≤ a → sub64 a b ≡ a - b
unfolding sub64
sub64_lem a b h k = omega arith

pub mul64_lem : (a b : ℕ) → a * b < u64_mod → mul64 a b ≡ a * b
unfolding mul64
mul64_lem a b h = omega arith

-- An unsigned difference read as a signed word of `half` positive values, and cut off at 0:
-- `std::max<intN_t>(0, a - b)` for unsigned `a` and `b`.
abbrev floor_of : ℕ → ℕ → ℕ
floor_of half d = if ltb d half then d else 0

unfoldable pub floor_sub32 : ℕ → ℕ → ℕ
floor_sub32 a b = floor_of 2147483648 ((a + u32_mod - b) % u32_mod)

unfoldable pub floor_sub64 : ℕ → ℕ → ℕ
floor_sub64 a b = floor_of 9223372036854775808 ((a + u64_mod - b) % u64_mod)

pub floor_sub32_lem : (a b : ℕ) → a < 2147483648 → b ≤ 2147483648 → floor_sub32 a b ≡ a - b
unfolding floor_sub32
floor_sub32_lem a b h k = ground arith

pub floor_sub64_lem :
    (a b : ℕ) → a < 9223372036854775808 → b ≤ 9223372036854775808 → floor_sub64 a b ≡ a - b
unfolding floor_sub64
floor_sub64_lem a b h k = ground arith

pub mul_le_mono : (a b m : ℕ) → a ≤ b → a * m ≤ b * m
mul_le_mono a b m h = grind arith
