-- ===== src/Examples/Timing.antt =====
-- Timelines of whole ticks, and latency histograms.
use infinity_clicker.Base.{ℕ, suc, ◌+◌, ◌*◌, ◌/◌, ◌≤◌, ◌<◌, ◌≡◌, refl, List, [], ◌∷◌, arith, ◌==◌}
use native.Mathlib.Nat.{mul-le-mul_right, le-div_iff_mul-le, lt-div-mul-add}
use infinity_clicker.Modes.Timeline.{PeriodArith, IsRounding, Timeline, slot, next, skip_late}
use infinity_clicker.Modes.Timeline.Late.{skip_late-lands}
use infinity_clicker.Telemetry.Histogram.{index, bucket_mid, empty, add_all, percentile}
use infinity_clicker.Telemetry.Histogram.Buckets.{bucket_mid-index_error}
use infinity_clicker.Telemetry.Histogram.Rank.{percentile-near_rank}

-- Periods of a whole number of ticks, for which rounding does nothing.
abbrev pub whole_ticks : PeriodArith
whole_ticks = record {
  Period = ℕ;
  non_positive = λ p. p == 0;
  offset = λ p i. i * p;
  index_at = λ p t. t / p;
}

whole_ticks-IsRounding : (p : ℕ) → 0 < p → IsRounding whole_ticks p
whole_ticks-IsRounding p h = record {
  offset_zero = omega arith;
  offset_mono = λ i j l. mul-le-mul_right p l;
  index-offset = λ k t l. (le-div_iff_mul-le h).1 (grind arith);
  offset-index = λ t. let below : t < t / p * p + p = lt-div-mul-add h in grind arith;
}

abbrev late_timeline : Timeline whole_ticks
late_timeline = record { t0 = 1000; period = 500; k = 3 }

skip_late-lands_example :
    let (tl', skipped) = skip_late whole_ticks late_timeline 5300 in
    (tl'.t0 ≡ 1000)
    × (tl'.period ≡ 500)
    × (tl'.k ≡ 3 + skipped)
    × (next whole_ticks tl' ≤ 5300)
    × (5300 ≤ slot whole_ticks late_timeline (suc tl'.k))
skip_late-lands_example =
    skip_late-lands whole_ticks late_timeline 5300 (whole_ticks-IsRounding 500 (omega arith)) refl
      (omega arith)

skip_late_test : (skip_late whole_ticks late_timeline 5300).1 ≡ 5
unfolding skip_late
skip_late_test = refl

bucket_mid-index_error_example :
    (15 * 100000 ≤ 16 * bucket_mid (index 100000)) × (16 * bucket_mid (index 100000) ≤ 17 * 100000)
bucket_mid-index_error_example = bucket_mid-index_error 100000 (omega arith)

abbrev latencies : List ℕ
latencies = 40 ∷ 900 ∷ 35 ∷ 120 ∷ []

-- The median rank of four samples is 2.
percentile-near_rank_example :
    (15 * 40 ≤ 16 * percentile (λ n. n / 2) (add_all empty latencies))
    × (16 * percentile (λ n. n / 2) (add_all empty latencies) ≤ 17 * 40)
percentile-near_rank_example =
    percentile-near_rank (λ n. n / 2) latencies 40 (omega arith) (omega arith) (omega arith)
      (omega arith) (omega arith)
