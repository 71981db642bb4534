-- ===== src/Telemetry/Running.antt =====
-- `Running` of src/telemetry/Stats.h: count, sum, least and greatest of a series of doubles.
use infinity_clicker.Base.{ℕ, ◌+◌, ◌%◌, ◌^◌, ◌==◌, ltb, if◌then◌else◌}
use infinity_clicker.Clock.{FloatArith, of_nat}

module _ (F : FloatArith) where
  open F use {Double, literal, add, sub, mul, div, lt, sqrt}

  abbrev pub zero_double : Double
  zero_double = literal 0 0

  pub record Running : Type 0 where
    pub n : ℕ
    pub sum : Double
    pub sum_sq : Double
    pub mn : Double
    pub mx : Double

  -- A `Running` that is reset.
  unfoldable pub cleared : Running
  cleared = record {
    n = 0;
    sum = zero_double;
    sum_sq = zero_double;
    mn = zero_double;
    mx = zero_double;
  }

  -- `Running::add`
  unfoldable pub add_value : Running → Double → Running
  add_value r v = record {
    n = (r.n + 1) % 2 ^ 64;
    sum = add r.sum v;
    sum_sq = add r.sum_sq (mul v v);
    mn = if r.n == 0 then v else if lt v r.mn then v else r.mn;
    mx = if r.n == 0 then v else if lt r.mx v then v else r.mx;
  }

  unfoldable pub mean : Running → Double
  mean r = if r.n == 0 then zero_double else div r.sum (of_nat F r.n)

  unfoldable pub stddev : Running → Double
  stddev r =
      let m = mean r in
      let var = sub (div r.sum_sq (of_nat F r.n)) (mul m m) in
      if ltb r.n 2 then zero_double else if lt zero_double var then sqrt var else zero_double
