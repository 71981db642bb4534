-- ===== src/Clock.antt =====
-- src/core/Clock.h: the conversions between ticks of the performance counter and units of time.
-- Floating point is a parameter, and so is the frequency of the counter.
use infinity_clicker.Base.{ℕ, ℤ, pos, Bool, ◌==◌, if◌then◌else◌}

-- The `double` of the code with what the code does with it: `literal m e` is the literal
-- m · 10^-e, `of_int` and `to_int` are the conversions from and to int64_t.
pub record FloatArith : Type 1 where
  pub Double : Type 0
  pub literal : ℕ → ℕ → Double
  pub of_int : ℤ → Double
  pub to_int : Double → ℤ
  pub add : Double → Double → Double
  pub sub : Double → Double → Double
  pub mul : Double → Double → Double
  pub div : Double → Double → Double
  pub lt : Double → Double → Bool
  pub sqrt : Double → Double
  pub fabs : Double → Double

module _ (F : FloatArith) where
  abbrev pub of_nat : ℕ → F.Double
  of_nat n = F.of_int (pos n)

module _ (F : FloatArith) (freq : ℕ) where
  open F use {Double, literal, of_int, to_int, add, mul, div}

  unfoldable pub ticks_to_sec : ℤ → Double
  ticks_to_sec t = div (of_int t) (of_nat F freq)

  unfoldable pub ticks_to_us : ℤ → Double
  ticks_to_us t = div (mul (of_int t) (literal 1000000 0)) (of_nat F freq)

  unfoldable pub ticks_to_ns : ℤ → Double
  ticks_to_ns t = div (mul (of_int t) (literal 1000000000 0)) (of_nat F freq)

  unfoldable pub sec_to_ticks : Double → ℤ
  sec_to_ticks s = to_int (add (mul s (of_nat F freq)) (literal 5 1))

  unfoldable pub ms_to_ticks : Double → ℤ
  ms_to_ticks ms = to_int (add (div (mul ms (of_nat F freq)) (literal 1000 0)) (literal 5 1))

  -- For `SetWaitableTimer`, in units of 100 ns.
  unfoldable pub ticks_to_100ns : ℤ → ℤ
  ticks_to_100ns t =
      if freq == 10000000
      then t
      else to_int (div (mul (of_int t) (literal 10000000 0)) (of_nat F freq))
