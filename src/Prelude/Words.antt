-- ===== src/Prelude/Words.antt =====
-- Go's int32 as its bit pattern, a number below 2 ^ 32, with signed order and wrapping sums.
use Prim.Native.Nat.{ℕ, ◌+◌, ◌-◌, ◌%◌, ◌^◌}
use mathlib.Core.Bool.{Bool, not}
use tachyne_gw_bedrock.Prelude.Tests.{ltb}

-- -1
abbrev pub minus_one : ℕ
minus_one = 2 ^ 32 - 1

-- The order of int32 is the order of the patterns with the sign bit flipped.
abbrev pub flip_sign : ℕ → ℕ
flip_sign w = (w + 2 ^ 31) % 2 ^ 32

abbrev pub lt_i32 : ℕ → ℕ → Bool
lt_i32 a b = ltb (flip_sign a) (flip_sign b)

abbrev pub le_i32 : ℕ → ℕ → Bool
le_i32 a b = not (lt_i32 b a)

abbrev pub add_i32 : ℕ → ℕ → ℕ
add_i32 a b = (a + b) % 2 ^ 32

abbrev pub sub_i32 : ℕ → ℕ → ℕ
sub_i32 a b = (a + 2 ^ 32 - b) % 2 ^ 32
