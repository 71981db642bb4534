-- ===== src/Engine/Commands/Gaps.antt =====
-- A batch that the idle loop of src/scheduler/Engine.cpp does not treat as a run would.
use infinity_clicker.Modes.Timeline.{PeriodArith}
use infinity_clicker.Engine.{Engine}
use infinity_clicker.Engine.Commands.Api.{drain}
use infinity_clicker.Engine.Commands.{IdlePlan, idle_commands, no_plan}

module _ (pa : PeriodArith) where
  -- What the idle loop makes of the commands in the queue.
  abbrev pub handled : Engine pa → Engine pa × IdlePlan
  handled e = let (cs, e') = drain pa e in idle_commands pa (e', no_plan) cs
