-- ===== src/Engine/Run/Limits.antt =====
-- From a press of the trigger to the count of actions: `threadMain`, `doRun` and `runTimed` of
-- src/scheduler/Engine.cpp together.
use infinity_clicker.Base.{
  length, ◌*◌, ℕ, ◌<◌, ◌≡◌, refl, ap, arith, Bool, true, false, List, [], ◌∷◌, Option, none, some,
}
use infinity_clicker.Modes.{
  TriggerMode, ModeParams, burst, count, RunLimits, or_one, decide_on_trigger_down, decide_down,
}
use infinity_clicker.Modes.Timeline.{PeriodArith}
use infinity_clicker.Engine.{Engine, trigger_down, running, k_unlimited}
use infinity_clicker.Engine.Commands.{idle_command, idle_commands, no_plan, is_start}
use infinity_clicker.Engine.Timed.{Tick, Clocks, run_timed, timed_start, program_ok}
use infinity_clicker.Engine.Timed.Budget.{quiet_all}
use infinity_clicker.Engine.Timed.Ends.{Opens, reached_in, is_ended, run_timed-ends}
use infinity_clicker.Engine.Timed.Count.{Counted, run_timed-count}
use infinity_clicker.Engine.Run.{limits_at, begin_run}

-- How many actions a press asks for in the modes that count.
abbrev pub asked : TriggerMode → ModeParams → ℕ
asked burst p = or_one p.burst_count
asked count p = or_one p.fixed_count
asked _ p = 0

asked-limits :
    (m : TriggerMode) (p : ModeParams)
    → p.mode ≡ m
    → 0 < asked m p
    → (is_start (decide_on_trigger_down p false).kind ≡ true)
      × ((decide_on_trigger_down p false).limits.max_actions ≡ asked m p)
unfolding decide_on_trigger_down decide_down
asked-limits burst p h a = (
  ap (λ m. is_start (decide_down m p false).kind) h,
  ap (λ m. (decide_down m p false).limits.max_actions) h,
)
asked-limits count p h a = (
  ap (λ m. is_start (decide_down m p false).kind) h,
  ap (λ m. (decide_down m p false).limits.max_actions) h,
)
asked-limits _ p h a = absurd (omega arith)

module _ (pa : PeriodArith) (ms_to_ticks : ℕ → ℕ) where
  -- The run has begun; with the ticks it ends, having started at most `n` actions, and exactly `n` if
  -- none of them remains.
  abbrev pub BegunCounted :
      (pa.Period → pa.Period → Bool) → Clocks → ℕ → ℕ → List (Tick pa) → Option (Engine pa) → Type 0
  BegunCounted same_rate ck now n ts none = ⊥
  BegunCounted same_rate ck now n ts (some e) =
      let r = run_timed pa same_rate ck (quiet_all pa ts) (timed_start pa now e) in
      (is_ended r ≡ true) × Counted pa n r

  begun-Counted :
      (same_rate : pa.Period → pa.Period → Bool)
      → (ck : Clocks) (now n : ℕ) (limits : RunLimits) (e : Engine pa) (ts : List (Tick pa))
      → program_ok e.cfg.prog ≡ true
      → limits.max_actions ≡ n
      → 0 < n
      → n < k_unlimited
      → e.pending ≡ none
      → Opens pa ts
      → n * length e.cfg.prog.steps < reached_in pa ts
      → BegunCounted same_rate ck now n ts (begin_run pa ms_to_ticks limits now e)
  unfolding begin_run limits_at
  begun-Counted same_rate ck now n limits e ts ok h p u q o m =
      let begun = record e {
        run = limits_at pa ms_to_ticks limits now;
        run_actions = 0;
        run_missed = 0;
        state = running;
      } in
      let limited : begun.run.remaining ≡ n = ground arith in
      let counts = run_timed-count pa same_rate ck now n begun ts limited u refl in
      let ends = run_timed-ends pa same_rate ck now n begun ts limited u q o m in
      rw ok (ends, counts)

  -- A press of the trigger that reaches the idle loop of an armed program in Burst or Count mode
  -- plans a run. If the action compiles and MAX mode is off, the run begins, and if no further command
  -- arrives and the gate stays open it ends, at the latest when one more deadline has been reached
  -- than the actions asked for have steps. It has then started at most as many actions as the mode
  -- asks for, and exactly as many if none remains. A count of 0 asks for one action.
  pub press-count :
      (same_rate : pa.Period → pa.Period → Bool)
      → (ck : Clocks) (now qpc : ℕ) (e : Engine pa) (ts : List (Tick pa)) → e.armed ≡ true
      → program_ok e.cfg.prog ≡ true
      → e.cfg.max_mode ≡ false
      → e.pending ≡ none
      → 0 < asked e.cfg.mode.mode e.cfg.mode
      → asked e.cfg.mode.mode e.cfg.mode < k_unlimited
      → Opens pa ts
      → asked e.cfg.mode.mode e.cfg.mode * length e.cfg.prog.steps < reached_in pa ts
      → let r = idle_commands pa (e, no_plan) (trigger_down qpc ∷ []) in
        (r.1.starts ≡ true)
        × BegunCounted same_rate ck now
            (asked e.cfg.mode.mode e.cfg.mode)
            ts
            (begin_run pa ms_to_ticks r.1.limits now r.0)
  unfolding idle_commands idle_command
  press-count same_rate ck now qpc e ts a ok timed q p u o m =
      let d = asked-limits e.cfg.mode.mode e.cfg.mode refl p in
      let r = idle_commands pa (e, no_plan) (trigger_down qpc ∷ []) in
      (
        ground (arith, d),
        begun-Counted same_rate ck now _ r.1.limits e ts ok (ground (arith, d)) p u q o m,
      )
