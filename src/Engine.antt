-- ===== src/Engine.antt =====
-- src/scheduler/Engine.h and Engine.cpp: the scheduler. This file has its configuration, its
-- commands and its state; the calls on the input sender are a list of outputs, newest last.
use infinity_clicker.Base.{ℕ, ◌-◌, ◌^◌, Bool, List, Option}
use infinity_clicker.Modes.{ModeParams, RunLimits}
use infinity_clicker.Modes.Timeline.{PeriodArith}
use infinity_clicker.Input.Action.{Input, ActionProgram}
pub mod Commands
pub mod Timed
pub mod Run
pub mod Max

pub data LatePolicy : Type 0 where
  skip catch_up : LatePolicy

pub data EngineState : Type 0 where
  disarmed armed_idle running paused : EngineState

pub data Output : Type 0 where
  send_inputs : List Input → Output
  release_held : Output

pub record RunCtl : Type 0 where
  pub stop : Bool
  pub emergency : Bool
  pub remaining : ℕ
  pub end_qpc : ℕ

abbrev pub k_unlimited : ℕ
k_unlimited = 2 ^ 64 - 1

-- `INT64_MAX`
abbrev pub no_end : ℕ
no_end = 2 ^ 63 - 1

module _ (pa : PeriodArith) where
  -- `period` is the ticks per action that the program computes from `cps`; `prog` and `max_prog`
  -- are what `rebuildProgram` compiles for the action.
  pub record EngineConfig : Type 0 where
    pub mode : ModeParams
    pub max_mode : Bool
    pub period : pa.Period
    pub late_policy : LatePolicy
    pub max_batch_actions : ℕ
    pub max_inflight : ℕ
    pub prog : ActionProgram
    pub max_prog : ActionProgram

  pub data Command : Type 0 where
    set_config : EngineConfig → Command
    arm : Bool → Command
    trigger_down trigger_up : (qpc : ℕ) → Command
    start_run : (limits : RunLimits) (qpc : ℕ) → Command
    stop_run emergency_stop quit reset_totals : Command

  pub record Engine : Type 0 where
    pub cfg : EngineConfig
    pub pending : Option EngineConfig
    pub armed : Bool
    pub state : EngineState
    pub run : RunCtl
    pub queue : List Command
    pub outputs : List Output
    pub run_actions : ℕ
    pub run_missed : ℕ
    pub total_actions : ℕ
    pub total_missed : ℕ
    pub runs_completed : ℕ
