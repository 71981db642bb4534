-- ===== src/Examples/FullSpeed.antt =====
-- Runs at full speed with three actions in a call.
use infinity_clicker.Base.{arith, true, [], ◌∷◌, none}
use infinity_clicker.Modes.{toggle}
use infinity_clicker.Engine.Timed.{copies, at_loop}
use infinity_clicker.Engine.Max.{MaxTick, MaxLoop, run_max}
use infinity_clicker.Engine.Max.Budget.{quiet_all, engine_of, IsConserved, run_max-IsConserved}
use infinity_clicker.Examples.Timing.{whole_ticks}
use infinity_clicker.Examples.Engine.{two_left, click}

abbrev loop : MaxLoop whole_ticks
loop = record {
  engine = two_left toggle;
  batch = copies whole_ticks 8 click.flat;
  per = 2;
  batch_actions = 8;
  last_gate = 0;
  phase = at_loop;
}

abbrev open_tick : MaxTick whole_ticks
open_tick = record {
  commands = none;
  now = 1000;
  gate_open = true;
  has_observed = true;
  in_flight = 0;
}

run_max-IsConserved_example : IsConserved whole_ticks (two_left toggle) (
    engine_of whole_ticks
      (run_max whole_ticks 20 (quiet_all whole_ticks (open_tick ∷ open_tick ∷ [])) loop))
run_max-IsConserved_example =
    run_max-IsConserved whole_ticks 20 (open_tick ∷ open_tick ∷ []) loop (omega arith)
