-- ===== src/Waiter/Margin.antt =====
-- The bounds of the margin in src/scheduler/PreciseWaiter.cpp.
use infinity_clicker.Base.{ℕ, ◌+◌, ◌/◌, ◌<◌, ◌≤◌, ◌≡◌, arith, none}
use infinity_clicker.Profiles.Keys.{Precision, eco, standard, ultra}
use infinity_clicker.Waiter.{Waiter, adaptive_margin, margin_ticks}

-- What the margin of each precision promises.
abbrev pub IsMargin : (ℕ → ℕ) → Waiter → Precision → ℕ → Type 0
IsMargin us w eco m = m ≡ 0
IsMargin us w standard m = (m ≤ us 2500) × (0 < w.period_hint → m ≤ w.period_hint / 10)
IsMargin us w ultra m =
    (us 300 ≤ m)
    × (m ≤ us 3000)
    × (w.p99 + us 200 ≤ us 3000 → w.p99 + us 200 ≤ m)
    × (w.max ≤ us 3000 → w.max ≤ m)

-- No margin is fixed, and a longer time has as many ticks or more, at the bounds that the code uses.
-- Then ECO has no margin; STANDARD has at most 2500 microseconds and, where the period is known, a
-- tenth of it; ULTRA has between 300 and 3000, at least the greatest lateness observed, and at least
-- 200 more than the 99th percentile, as far as these lie below 3000 microseconds.
pub margin_ticks-IsMargin :
    (us : ℕ → ℕ) (w : Waiter) (p : Precision)
    → w.fixed_margin ≡ none
    → us 100 ≤ us 2500
    → us 300 ≤ us 3000
    → IsMargin us w p (margin_ticks us w p)
unfolding margin_ticks adaptive_margin
margin_ticks-IsMargin us w eco e a b = rw e
margin_ticks-IsMargin us w standard e a b = rw e (ground arith, λ h. ground arith)
margin_ticks-IsMargin us w ultra e a b =
    rw e (ground arith, ground arith, λ h. ground arith, λ h. ground arith)
