-- ===== src/Engine/Run.antt =====
-- `doRun` of src/scheduler/Engine.cpp: what surrounds the loop of a run. `ms_to_ticks` is
-- `clk::msToTicks`; the power settings, the log and the published figures are left out.
use infinity_clicker.Base.{
  ℕ, ◌+◌, ◌%◌, ◌^◌, Bool, false, not, if◌then◌else◌, ltb, ◌==◌, List, [], ◌∷◌, ◌++◌, Option, none,
  some,
}
use infinity_clicker.Modes.{RunLimits}
use infinity_clicker.Modes.Timeline.{PeriodArith}
use infinity_clicker.Input.Sender.{u64}
use infinity_clicker.Engine.{
  Engine, EngineConfig, RunCtl, EngineState, disarmed, armed_idle, running, release_held,
  k_unlimited, no_end,
}
use infinity_clicker.Engine.Timed.{program_ok}
pub mod Limits

module _ (pa : PeriodArith) (ms_to_ticks : ℕ → ℕ) where
  -- The run's limits, at the time it begins.
  unfoldable pub limits_at : RunLimits → ℕ → RunCtl
  limits_at limits now = record {
    stop = false;
    emergency = false;
    remaining = if limits.max_actions == 0 then k_unlimited else limits.max_actions;
    end_qpc = if ltb 0 limits.duration_ms then now + ms_to_ticks limits.duration_ms else no_end;
  }

  -- Nothing is begun if the action does not compile.
  unfoldable pub begin_run : RunLimits → ℕ → Engine pa → Option (Engine pa)
  begin_run limits now e =
      if not (program_ok e.cfg.prog)
      then none
      else some (record e {
        run = limits_at limits now;
        run_actions = 0;
        run_missed = 0;
        state = running;
      })

  -- The configuration that arrived too late for the run.
  unfoldable pub late_config : Option (EngineConfig pa) → Engine pa → Engine pa
  late_config none e = e
  late_config (some c) e = record e { cfg = c; pending = none }

  unfoldable pub end_run : Engine pa → Engine pa
  end_run e = late_config e.pending (record e {
    outputs = e.outputs ++ release_held ∷ [];
    total_actions = u64 (e.total_actions + e.run_actions);
    total_missed = u64 (e.total_missed + e.run_missed);
    state = if e.armed then armed_idle else disarmed;
    runs_completed = u64 (e.runs_completed + 1);
  })

  -- `loop` is the loop of the run, timed or at full speed.
  unfoldable pub do_run : (Engine pa → Engine pa) → RunLimits → ℕ → Engine pa → Engine pa
  do_run loop limits now e = elim (begin_run limits now e) [
    | none ↦ e
    | some e' ↦ end_run (loop e')
  ]
