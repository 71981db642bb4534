-- ===== src/Engine/Timed/Count.antt =====
-- How many actions a run of `runTimed` in src/scheduler/Engine.cpp starts.
use infinity_clicker.Base.{ℕ, ◌+◌, ◌<◌, ◌≤◌, ◌≡◌, Bool, refl, arith, List}
use infinity_clicker.Modes.Timeline.{PeriodArith}
use infinity_clicker.Engine.{Engine, k_unlimited}
use infinity_clicker.Engine.Timed.{Tick, Next, go_on, ended, to_max, Clocks, run_timed, timed_start}
use infinity_clicker.Engine.Timed.Budget.{quiet_all, IsLimited, Balanced, run-Balanced}

module _ (pa : PeriodArith) where
  -- What a run that may start `n` actions has done so far, or did when it ended.
  abbrev pub Counted : ℕ → Next pa → Type 0
  Counted n (go_on l) =
      (l.engine.run_actions ≤ n) × (n ≤ l.engine.run.remaining + l.engine.run_actions)
  Counted n (ended e) = (e.run_actions ≤ n) × (e.run.remaining ≡ 0 → e.run_actions ≡ n)
  Counted n (to_max e) = (e.run_actions ≤ n) × (n ≤ e.run.remaining + e.run_actions)

  Counted-of_Balanced :
      (same_rate : pa.Period → pa.Period → Bool)
      → (now n : ℕ) (e : Engine pa) (r : Next pa) → e.run.remaining ≡ n
      → e.run_actions ≡ 0
      → Balanced pa (timed_start pa now e) r
      → Counted n r
  unfolding timed_start
  Counted-of_Balanced same_rate now n e (go_on l) h z b = ground (arith, b.1.covered)
  Counted-of_Balanced same_rate now n e (ended x) h z b = ground arith
  Counted-of_Balanced same_rate now n e (to_max x) h z b = ground arith

  -- A run with a limit of `n` actions, over which no command arrives, never starts more than `n`,
  -- however it is paused, interrupted, late, given a new rate or batched; what it has not started is
  -- still counted as remaining, and a run that ends with nothing remaining has started `n` actions.
  pub run_timed-count :
      (same_rate : pa.Period → pa.Period → Bool)
      → (ck : Clocks) (now n : ℕ) (e : Engine pa) (ts : List (Tick pa)) → e.run.remaining ≡ n
      → n < k_unlimited
      → e.run_actions ≡ 0
      → Counted n (run_timed pa same_rate ck (quiet_all pa ts) (timed_start pa now e))
  unfolding timed_start
  run_timed-count same_rate ck now n e ts h u z =
      let s = timed_start pa now e in
      let v : IsLimited pa s = record { limited = omega arith; covered = λ k. absurd (k refl) } in
      Counted-of_Balanced same_rate now n e _ h z (run-Balanced pa same_rate ck ts s v)
