-- ===== src/Base/Int.antt =====
-- Signed integers over the native numbers, with the conversions that a cast makes.
use Prim.Native.Nat.{ℕ, ◌+◌, ◌-◌, ◌%◌, ◌^◌, ◌≤◌, ◌<◌}
use mathlib.Core.Path.{◌≡◌}
use native.Mathlib.Omega.{arith}
use infinity_clicker.Base.Tests.{ltb, if◌then◌else◌}

-- `negsuc n` is -(n + 1).
pub data ℤ : Type 0 where
  pos : ℕ → ℤ
  negsuc : ℕ → ℤ

-- `z` as `pos_part z - neg_part z`.
abbrev pub pos_part : ℤ → ℕ
pos_part (pos n) = n
pos_part (negsuc n) = 0

abbrev pub neg_part : ℤ → ℕ
neg_part (pos n) = 0
neg_part (negsuc n) = n + 1

infix 50 ◌≤ℤ◌
abbrev pub ◌≤ℤ◌ : ℤ → ℤ → Type 0
a ≤ℤ b = pos_part a + neg_part b ≤ pos_part b + neg_part a

-- a - b, as an integer.
abbrev pub sub_ℕ : ℕ → ℕ → ℤ
sub_ℕ a b = if ltb a b then negsuc (b - a - 1) else pos (a - b)

-- A cast to an unsigned type of `w` bits.
abbrev pub to_unsigned : ℕ → ℤ → ℕ
to_unsigned w (pos n) = n % 2 ^ w
to_unsigned w (negsuc n) = 2 ^ w - 1 - n % 2 ^ w

-- `std::clamp<int64_t>(z, lo, hi)`, for bounds that are not negative.
unfoldable pub clamp_int : ℕ → ℕ → ℤ → ℕ
clamp_int lo hi (pos n) = if ltb n lo then lo else if ltb hi n then hi else n
clamp_int lo hi (negsuc n) = lo

pub clamp_int_bounds :
    (lo hi : ℕ) (z : ℤ) → lo ≤ hi → (lo ≤ clamp_int lo hi z) × (clamp_int lo hi z ≤ hi)
unfolding clamp_int
clamp_int_bounds lo hi (pos n) h = ground arith
clamp_int_bounds lo hi (negsuc n) h = omega arith

pub clamp_int-pos : (lo hi n : ℕ) → lo ≤ n → n ≤ hi → clamp_int lo hi (pos n) ≡ n
unfolding clamp_int
clamp_int-pos lo hi n l h = ground arith

-- A cast to a signed type of `w` bits.
unfoldable pub to_signed : ℕ → ℤ → ℤ
to_signed w z =
    let u = to_unsigned w z in if ltb u (2 ^ (w - 1)) then pos u else negsuc (2 ^ w - 1 - u)

-- The integer is one of `w` bits.
abbrev pub IsSigned : ℕ → ℤ → Type 0
IsSigned w (pos n) = n < 2 ^ (w - 1)
IsSigned w (negsuc n) = n < 2 ^ (w - 1)

pub to_signed32_same : (z : ℤ) → IsSigned 32 z → to_signed 32 z ≡ z
unfolding to_signed
to_signed32_same (pos n) h = ground arith
to_signed32_same (negsuc n) h = ground arith
