-- ===== src/Modes.antt =====
-- src/scheduler/Modes.h: what a trigger edge means in each trigger mode. Durations are whole
-- milliseconds. The timeline is in the child module.
use infinity_clicker.Base.{ℕ, Bool, if◌then◌else◌, ◌==◌}
pub mod Timeline

pub data TriggerMode : Type 0 where
  hold toggle burst count duration : TriggerMode

pub record ModeParams : Type 0 where
  pub mode : TriggerMode
  pub burst_count : ℕ
  pub fixed_count : ℕ
  pub duration_ms : ℕ

-- 0 stands for "unlimited" in either field.
pub record RunLimits : Type 0 where
  pub max_actions : ℕ
  pub duration_ms : ℕ

pub data Kind : Type 0 where
  nothing start stop extend : Kind

pub record ModeDecision : Type 0 where
  pub kind : Kind
  pub limits : RunLimits
  pub extend_by : ℕ

abbrev pub no_limits : RunLimits
no_limits = record { max_actions = 0; duration_ms = 0 }

abbrev pub no_decision : ModeDecision
no_decision = record { kind = nothing; limits = no_limits; extend_by = 0 }

-- `n ? n : 1`
abbrev pub or_one : ℕ → ℕ
or_one n = if n == 0 then 1 else n

abbrev start_or : Kind → Bool → Kind
start_or k running = if running then k else start

unfoldable pub decide_down : TriggerMode → ModeParams → Bool → ModeDecision
decide_down hold p running = record no_decision { kind = start_or nothing running }
decide_down toggle p running = record no_decision { kind = start_or stop running }
decide_down burst p running =
    if running
    then record no_decision { kind = extend; extend_by = p.burst_count }
    else record no_decision {
      kind = start;
      limits = record no_limits { max_actions = or_one p.burst_count };
    }
decide_down count p running = record no_decision {
  kind = start_or stop running;
  limits = record no_limits { max_actions = or_one p.fixed_count };
}
decide_down duration p running = record no_decision {
  kind = start_or stop running;
  limits = record no_limits { duration_ms = or_one p.duration_ms };
}

unfoldable pub decide_on_trigger_down : ModeParams → Bool → ModeDecision
unfolding decide_down
decide_on_trigger_down p running = decide_down p.mode p running

unfoldable pub decide_up : TriggerMode → Bool → ModeDecision
decide_up hold running = record no_decision { kind = if running then stop else nothing }
decide_up _ running = no_decision

unfoldable pub decide_on_trigger_up : ModeParams → Bool → ModeDecision
unfolding decide_up
decide_on_trigger_up p running = decide_up p.mode running
