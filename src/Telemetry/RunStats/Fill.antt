-- ===== src/Telemetry/RunStats/Fill.antt =====
-- `RunStats::fill` of src/telemetry/Stats.cpp with its two `summarize`. `share` is the rank that
-- `percentile` asks for at a quantile.
use infinity_clicker.Base.{
  ℕ, zero, suc, ◌+◌, ◌-◌, ◌%◌, ◌^◌, ◌==◌, ltb, leb, if◌then◌else◌, ◌&&◌, pos, sub_ℕ,
}
use infinity_clicker.Clock.{FloatArith, of_nat, ticks_to_sec, ticks_to_us}
use infinity_clicker.Telemetry.Histogram.{LogHistogram, percentile}
use infinity_clicker.Telemetry.Running.{Running, mean, stddev}
use infinity_clicker.Telemetry.RunStats.{RunStats, k_cps_history}

abbrev pub min : ℕ → ℕ → ℕ
min a b = if ltb b a then b else a

-- The sum of the `i` slots before the head, as the loop of `sumLast` adds them.
unfoldable pub sum_back : (ℕ → ℕ) → ℕ → ℕ → ℕ
sum_back slots head zero = 0
sum_back slots head (suc i) =
    (sum_back slots head i + slots ((head + k_cps_history - suc i) % k_cps_history)) % 2 ^ 64

module _ (F : FloatArith) where
  pub record IntervalSummary : Type 0 where
    pub count : ℕ
    pub min_us : F.Double
    pub max_us : F.Double
    pub avg_us : F.Double
    pub stddev_us : F.Double

  pub record LatenessSummary : Type 0 where
    pub count : ℕ
    pub avg_us : F.Double
    pub p50_us : F.Double
    pub p99_us : F.Double
    pub p999_us : F.Double
    pub max_us : F.Double
    pub over100us : ℕ

  -- The fields of `EngineSnapshot` that `fill` writes.
  pub record RunFigures : Type 0 where
    pub run_elapsed_sec : F.Double
    pub run_actions : ℕ
    pub run_missed : ℕ
    pub run_avg_cps : F.Double
    pub cps1s : F.Double
    pub cps5s : F.Double
    pub run_interval : IntervalSummary
    pub sec_interval : IntervalSummary
    pub run_late : LatenessSummary
    pub sec_late : LatenessSummary
    pub avg_error_pct : F.Double
    pub send_p50_us : F.Double
    pub send_p99_us : F.Double
    pub send_max_us : F.Double
    pub send_max_last_sec_us : F.Double
    pub cps_history_count : ℕ
    pub cps_history : ℕ → F.Double

  -- `sumLast`: the sum over the last `n` slots, or over those there are, and their number.
  unfoldable pub sum_last : RunStats F → ℕ → ℕ × ℕ
  unfolding sum_back
  sum_last s n = let have = min n s.slot_filled in (sum_back s.slots s.slot_head have, have)

  -- The slot that entry `i` of the history shows.
  unfoldable pub history_slot : RunStats F → ℕ → ℕ
  history_slot s i = s.slots ((s.slot_head + i + k_cps_history - s.slot_filled) % k_cps_history)

  module _ (freq : ℕ) (share : F.Double → ℕ → ℕ) where
    open F use {Double, literal, of_int, to_int, mul, div, lt, sub, fabs}

    -- A mean in ticks as microseconds.
    abbrev mean_us : Double → Double
    mean_us m = div (mul m (literal 1000000 0)) (of_nat F freq)

    unfoldable pub summarize_interval : Running F → IntervalSummary
    summarize_interval r = record {
      count = r.n;
      min_us = ticks_to_us F freq (to_int r.mn);
      max_us = ticks_to_us F freq (to_int r.mx);
      avg_us = mean_us (mean F r);
      stddev_us = mean_us (stddev F r);
    }

    -- A quantile of a histogram of nanoseconds, in microseconds.
    unfoldable pub quantile_us : Double → LogHistogram → Double
    quantile_us q h = div (of_nat F (percentile (share q) h)) (literal 1000 0)

    unfoldable pub summarize_late : Running F → LogHistogram → ℕ → LatenessSummary
    unfolding quantile_us
    summarize_late r h over100 = record {
      count = r.n;
      avg_us = mean_us (mean F r);
      p50_us = quantile_us (literal 50 2) h;
      p99_us = quantile_us (literal 99 2) h;
      p999_us = quantile_us (literal 999 3) h;
      max_us = ticks_to_us F freq (to_int r.mx);
      over100us = over100;
    }

    -- The achieved rate of the run: the intervals between the first action and the last one, or,
    -- for fewer than two actions, the actions over the length of the run.
    unfoldable pub average_cps : RunStats F → Double → Double
    average_cps s elapsed =
        let span = ticks_to_sec F freq (sub_ℕ s.last_fire s.first_fire) in
        if leb 2 s.actions && ltb s.first_fire s.last_fire
        then div (of_nat F (s.actions - 1)) span
        else if lt (literal 0 0) elapsed
        then div (of_nat F s.actions) elapsed
        else literal 0 0

    -- The rate over the last `n` slots, or `otherwise` if no slot is complete.
    unfoldable pub rolling_cps : RunStats F → ℕ → Double → Double
    unfolding sum_last
    rolling_cps s n otherwise =
        let (sum, have) = sum_last s n in
        if have == 0 then otherwise else div (of_nat F sum) (mul (literal 1 1) (of_nat F have))

    unfoldable pub fill : RunStats F → ℕ → RunFigures
    unfolding summarize_interval summarize_late average_cps rolling_cps quantile_us history_slot
    fill s now =
        let elapsed = ticks_to_sec F freq (sub_ℕ now s.start) in
        let average = average_cps s elapsed in
        record {
          run_elapsed_sec = elapsed;
          run_actions = s.actions;
          run_missed = s.missed;
          run_avg_cps = average;
          cps1s = rolling_cps s 10 average;
          cps5s = rolling_cps s 50 average;
          run_interval = summarize_interval s.interval_run;
          sec_interval =
              summarize_interval
                (if s.interval_last_sec.n == 0 then s.interval_sec else s.interval_last_sec);
          run_late = summarize_late s.late_run s.late_hist_run s.over100_run;
          sec_late =
              if s.late_last_sec.n == 0
              then summarize_late s.late_sec s.late_hist_sec s.over100_sec
              else summarize_late s.late_last_sec s.late_hist_last_sec s.over100_last_sec;
          avg_error_pct =
              if lt (literal 0 0) s.target_period && ltb 0 s.interval_run.n
              then mul (div (fabs (sub (mean F s.interval_run) s.target_period)) s.target_period)
                  (literal 100 0)
              else literal 0 0;
          send_p50_us = quantile_us (literal 50 2) s.send_hist;
          send_p99_us = quantile_us (literal 99 2) s.send_hist;
          send_max_us = ticks_to_us F freq (pos s.send_max);
          send_max_last_sec_us = ticks_to_us F freq (
              pos (
                if ltb s.send_max_last_sec s.send_max_sec
                then s.send_max_sec
                else s.send_max_last_sec));
          cps_history_count = s.slot_filled;
          cps_history = λ i. mul (of_nat F (history_slot s i)) (literal 10 0);
        }
