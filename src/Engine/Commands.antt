-- ===== src/Engine/Commands.antt =====
-- How src/scheduler/Engine.cpp handles a drained batch of commands, idle (`threadMain`) and inside
-- a run (`handleRunCommands`).
use infinity_clicker.Base.{
  ℕ, ◌+◌, ◌%◌, ◌^◌, Bool, true, false, ◌&&◌, not, if◌then◌else◌, ◌==◌, List, [], ◌∷◌, ◌++◌, some,
  none,
}
use infinity_clicker.Modes.{
  ModeParams, TriggerMode, hold, RunLimits, ModeDecision, Kind, start, stop, extend, no_limits,
  decide_on_trigger_down, decide_on_trigger_up,
}
use infinity_clicker.Modes.Timeline.{PeriodArith}
use infinity_clicker.Input.Sender.{u64}
use infinity_clicker.Engine.{
  EngineConfig, Command, set_config, arm, trigger_down, trigger_up, start_run, stop_run,
  emergency_stop, quit, reset_totals, Engine, armed_idle, disarmed, release_held, k_unlimited,
}
pub mod Api
pub mod Stop
pub mod Extend
pub mod Emergency
pub mod Gaps

-- What the idle loop has decided so far in a batch.
pub record IdlePlan : Type 0 where
  pub starts : Bool
  pub limits : RunLimits
  pub trigger_qpc : ℕ
  pub quits : Bool

abbrev pub no_plan : IdlePlan
no_plan = record { starts = false; limits = no_limits; trigger_qpc = 0; quits = false }

abbrev pub is_start : Kind → Bool
is_start start = true
is_start _ = false

abbrev pub is_stop : Kind → Bool
is_stop stop = true
is_stop _ = false

abbrev pub is_extend : Kind → Bool
is_extend extend = true
is_extend _ = false

abbrev pub is_hold : TriggerMode → Bool
is_hold hold = true
is_hold _ = false

module _ (pa : PeriodArith) where
  -- `post`
  abbrev pub post : Engine pa → Command pa → Engine pa
  post e c = record e { queue = e.queue ++ c ∷ [] }

  unfoldable pub idle_command : Engine pa × IdlePlan → Command pa → Engine pa × IdlePlan
  idle_command (e, p) (set_config c) = (record e { cfg = c }, p)
  idle_command (e, p) (arm on) =
      (record e { armed = on; state = if on then armed_idle else disarmed }, p)
  idle_command (e, p) (trigger_down qpc) =
      let d = decide_on_trigger_down e.cfg.mode false in
      (
        e,
        if e.armed && is_start d.kind
            then record p { starts = true; limits = d.limits; trigger_qpc = qpc }
            else p,
      )
  idle_command (e, p) (trigger_up qpc) =
      (e, if p.starts && is_hold e.cfg.mode.mode then record p { starts = false } else p)
  idle_command (e, p) (start_run limits qpc) =
      (e, record p { starts = true; limits = limits; trigger_qpc = qpc })
  idle_command (e, p) stop_run = (e, record p { starts = false })
  idle_command (e, p) emergency_stop = (
    record e { armed = false; state = disarmed; outputs = e.outputs ++ release_held ∷ [] },
    record p { starts = false },
  )
  idle_command (e, p) reset_totals = (record e { total_actions = 0; total_missed = 0 }, p)
  idle_command (e, p) quit = (e, record p { quits = true })

  unfoldable pub idle_commands : Engine pa × IdlePlan → List (Command pa) → Engine pa × IdlePlan
  idle_commands r [] = r
  idle_commands r (c ∷ cs) = idle_commands (idle_command r c) cs

  -- One command inside a run; `quit` is handled by the loop.
  unfoldable pub run_command : Engine pa → Command pa → Engine pa
  run_command e (set_config c) = record e { pending = some c }
  run_command e (arm on) = record e {
    armed = on;
    run = if on then e.run else record (e.run) { stop = true };
  }
  run_command e (trigger_down qpc) =
      let d = decide_on_trigger_down e.cfg.mode true in
      record e {
        run =
            if is_stop d.kind
            then record (e.run) { stop = true }
            else if is_extend d.kind && not (e.run.remaining == k_unlimited)
            then record (e.run) { remaining = u64 (e.run.remaining + d.extend_by) }
            else e.run;
      }
  run_command e (trigger_up qpc) =
      let d = decide_on_trigger_up e.cfg.mode true in
      record e { run = if is_stop d.kind then record (e.run) { stop = true } else e.run }
  run_command e (start_run limits qpc) = e
  run_command e stop_run = record e { run = record (e.run) { stop = true } }
  run_command e emergency_stop = record e {
    armed = false;
    run = record (e.run) { stop = true; emergency = true };
  }
  run_command e reset_totals = e
  run_command e quit = record e {
    run = record (e.run) { stop = true };
    queue = e.queue ++ quit ∷ [];
  }

  -- The loop over a drained batch. A `quit` is posted again, and what follows it is dropped. The
  -- run must stop if the result's `run.stop` is set.
  unfoldable pub run_commands : Engine pa → List (Command pa) → Engine pa
  run_commands e [] = e
  run_commands e (quit ∷ cs) = run_command e quit
  run_commands e (c ∷ cs) = run_commands (run_command e c) cs
