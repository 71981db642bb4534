-- ===== src/Waiter.antt =====
-- src/scheduler/PreciseWaiter: the wait for a deadline, first in the kernel, then spinning, with a
-- margin that follows how late the timer has been. Ticks are natural numbers, `us n` is the number
-- of ticks in `n` microseconds (`int64_t(n * perUs_)`). A lateness may be negative.
use infinity_clicker.Base.{
  ℕ, zero, suc, ◌+◌, ◌-◌, ◌/◌, ◌%◌, Bool, true, false, ◌&&◌, ◌||◌, not, if◌then◌else◌, ltb, leb,
  ◌==◌, List, [], ◌∷◌, Option, none, some, ℤ, pos, negsuc, sub_ℕ, pos_part, map,
}
use infinity_clicker.Profiles.Keys.{Precision, eco, standard, ultra}
pub mod Margin
pub mod Sorted
pub mod Model
pub mod Loop
pub mod Waits
pub mod Returns

abbrev pub k_samples : ℕ
k_samples = 256

-- The fields of `PreciseWaiter` but the handle of the timer. `fixed_margin` is `none` where
-- `fixedMarginTicks_` is negative; `samples` is a function of the index.
pub record Waiter : Type 0 where
  pub spin_ticks : ℕ
  pub sleep_ticks : ℕ
  pub timer_waits : ℕ
  pub high_res : Bool
  pub fixed_margin : Option ℕ
  pub period_hint : ℕ
  pub samples : ℕ → ℤ
  pub count : ℕ
  pub head : ℕ
  pub since_model : ℕ
  pub p50 : ℕ
  pub p75 : ℕ
  pub p99 : ℕ
  pub max : ℕ

-- The constructor; `high` tells whether Windows has a timer of high resolution.
unfoldable pub new_waiter : (ℕ → ℕ) → Bool → Waiter
new_waiter us high = record {
  spin_ticks = 0;
  sleep_ticks = 0;
  timer_waits = 0;
  high_res = high;
  fixed_margin = none;
  period_hint = 0;
  samples = λ i. pos 0;
  count = 0;
  head = 0;
  since_model = 0;
  p50 = us 250;
  p75 = us 400;
  p99 = us 600;
  max = us 1000;
}

-- `setFixedMarginUs`; a negative margin, here `none`, makes it adaptive.
unfoldable pub set_fixed_margin_us : (ℕ → ℕ) → Waiter → Option ℕ → Waiter
set_fixed_margin_us us w none = record w { fixed_margin = none }
set_fixed_margin_us us w (some n) = record w { fixed_margin = some (us n) }

unfoldable pub set_period_hint : Waiter → ℕ → Waiter
set_period_hint w ticks = record w { period_hint = ticks }

unfoldable pub reset_accounting : Waiter → Waiter
reset_accounting w = record w { spin_ticks = 0; sleep_ticks = 0; timer_waits = 0 }

-- The entries `0 .. n - 1`.
abbrev pub first_samples : (ℕ → ℤ) → ℕ → List ℤ
first_samples f zero = []
first_samples f (suc n) = f 0 ∷ first_samples (λ i. f (suc i)) n

-- An entry of a sorted copy, and 0 past its end.
abbrev pub entry : List ℤ → ℕ → ℤ
entry [] i = pos 0
entry (z ∷ zs) zero = z
entry (z ∷ zs) (suc i) = entry zs i

abbrev pub smaller : ℕ → ℕ → ℕ
smaller a b = if ltb b a then b else a

-- `std::sort` is a parameter, and so is `rank q n`, the `int(q * n + 0.5)` of a quantile of `q`
-- hundredths.
module _ (sort : List ℤ → List ℤ) (rank : ℕ → ℕ → ℕ) where
  -- The lambda `at` of `recomputeModel`.
  abbrev pub quantile : List ℤ → ℕ → ℕ → ℕ
  quantile sorted count q = pos_part (entry sorted (smaller (count - 1) (rank q (count - 1))))

  unfoldable pub recompute_model : Waiter → Waiter
  recompute_model w =
      let sorted = sort (first_samples w.samples w.count) in
      if ltb w.count 8 then record w { since_model = 0 } else record w {
        since_model = 0;
        p50 = quantile sorted w.count 50;
        p75 = quantile sorted w.count 75;
        p99 = quantile sorted w.count 99;
        max = pos_part (entry sorted (w.count - 1));
      }

  -- `record_oversleep` before the model is computed again.
  unfoldable pub store_sample : Waiter → ℤ → Waiter
  store_sample w ticks = record w {
    samples = λ i. if i == w.head then ticks else w.samples i;
    head = (w.head + 1) % k_samples;
    count = if ltb w.count k_samples then w.count + 1 else w.count;
    since_model = w.since_model + 1;
  }

  unfoldable pub record_oversleep : Waiter → ℤ → Waiter
  unfolding store_sample recompute_model
  record_oversleep w ticks =
      let t = store_sample w ticks in
      if leb 32 t.since_model || ltb t.count 32 then recompute_model t else t

  -- The readings of the clock before and after each sleep, and `i`, the sleeps made so far.
  unfoldable pub calibrate_from : (ℕ → ℕ) → ℕ → Waiter → List (ℕ × ℕ) → Waiter
  unfolding record_oversleep
  calibrate_from us i w [] = w
  calibrate_from us i w ((t0, t1) ∷ rest) =
      let req = us (if i % 2 == 0 then 1000 else 300) in
      calibrate_from us (i + 1) (record_oversleep w (sub_ℕ t1 (t0 + req))) rest

  -- `calibrate`, whose loop makes 32 sleeps.
  unfoldable pub calibrate : (ℕ → ℕ) → Waiter → List (ℕ × ℕ) → Waiter
  unfolding calibrate_from recompute_model
  calibrate us w sleeps = recompute_model (calibrate_from us 0 w sleeps)

-- `std::clamp` on ticks that are not negative.
abbrev pub clamp : ℕ → ℕ → ℕ → ℕ
clamp lo hi n = if ltb n lo then lo else if ltb hi n then hi else n

abbrev pub larger : ℕ → ℕ → ℕ
larger a b = if ltb a b then b else a

-- `marginTicks` when no margin is fixed.
unfoldable pub adaptive_margin : (ℕ → ℕ) → Waiter → Precision → ℕ
adaptive_margin us w eco = 0
adaptive_margin us w standard =
    let want = clamp (us 100) (us 2500) (w.p99 + us 100) in
    if ltb 0 w.period_hint then smaller want (w.period_hint / 10) else want
adaptive_margin us w ultra = clamp (us 300) (us 3000) (larger (w.p99 + us 200) w.max)

-- `marginTicks` with a fixed margin.
abbrev pub given_margin : ℕ → Precision → ℕ
given_margin m eco = 0
given_margin m standard = m
given_margin m ultra = m

abbrev pub margin_or : Option ℕ → Precision → ℕ → ℕ
margin_or none p adaptive = adaptive
margin_or (some m) p adaptive = given_margin m p

unfoldable pub margin_ticks : (ℕ → ℕ) → Waiter → Precision → ℕ
unfolding adaptive_margin
margin_ticks us w p = margin_or w.fixed_margin p (adaptive_margin us w p)
