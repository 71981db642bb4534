-- ===== src/Engine/Commands/Api.antt =====
-- The thread-safe interface of src/scheduler/Engine.cpp: each call posts a command. Arming, disarming
-- and the emergency stop set the flag at once too. `now` is the time of the call.
use infinity_clicker.Base.{ℕ, Bool, false, List, []}
use infinity_clicker.Modes.{RunLimits}
use infinity_clicker.Modes.Timeline.{PeriodArith}
use infinity_clicker.Engine.{
  EngineConfig, Command, set_config, arm, trigger_down, trigger_up, start_run, stop_run,
  emergency_stop, quit, reset_totals, Engine,
}
use infinity_clicker.Engine.Commands.{post}

module _ (pa : PeriodArith) where
  abbrev pub call_set_config : EngineConfig pa → Engine pa → Engine pa
  call_set_config c e = post pa e (set_config c)

  abbrev pub call_arm : Bool → Engine pa → Engine pa
  call_arm on e = post pa (record e { armed = on }) (arm on)

  abbrev pub call_trigger_down : ℕ → Engine pa → Engine pa
  call_trigger_down qpc e = post pa e (trigger_down qpc)

  abbrev pub call_trigger_up : ℕ → Engine pa → Engine pa
  call_trigger_up qpc e = post pa e (trigger_up qpc)

  abbrev pub call_start_run : RunLimits → ℕ → Engine pa → Engine pa
  call_start_run limits now e = post pa e (start_run limits now)

  abbrev pub call_stop_run : Engine pa → Engine pa
  call_stop_run e = post pa e stop_run

  abbrev pub call_emergency : Engine pa → Engine pa
  call_emergency e = post pa (record e { armed = false }) emergency_stop

  abbrev pub call_reset_totals : Engine pa → Engine pa
  call_reset_totals e = post pa e reset_totals

  abbrev pub call_shutdown : Engine pa → Engine pa
  call_shutdown e = post pa e quit

  -- `drain`: the commands in order, and an empty queue.
  abbrev pub drain : Engine pa → List (Command pa) × Engine pa
  drain e = (e.queue, record e { queue = [] })
