-- ===== src/Examples/Engine.antt =====
-- Runs of the scheduler on a program of one click, at a period of 500 ticks.
use infinity_clicker.Base.{
  List, ◌*◌, ℕ, ◌≡◌, refl, arith, true, false, ◌||◌, ◌==◌, [], ◌∷◌, ◌++◌, none,
}
use infinity_clicker.Modes.{TriggerMode, burst, toggle}
use infinity_clicker.Input.Action.{ActionProgram, mouse_input, left_down, left_up}
use infinity_clicker.Input.Sender.{tag_inf_click}
use infinity_clicker.Engine.{
  EngineConfig, Engine, running, catch_up, trigger_down, trigger_up, emergency_stop, no_end,
}
use infinity_clicker.Engine.Commands.{run_commands, idle_commands, no_plan}
use infinity_clicker.Engine.Commands.Stop.{any_stop, run_commands-stop}
use infinity_clicker.Engine.Commands.Extend.{run_commands-remaining}
use infinity_clicker.Engine.Commands.Emergency.{
  IsHalted, IsQuiet, run_commands-emergency, idle_commands-emergency,
}
use infinity_clicker.Engine.Timed.{Tick, Clocks, reached, chunked, run_timed, timed_start}
use infinity_clicker.Engine.Timed.Budget.{quiet_all}
use infinity_clicker.Engine.Timed.Ends.{is_ended, run_timed-ends}
use infinity_clicker.Engine.Timed.Count.{Counted, run_timed-count}
use infinity_clicker.Engine.Run.{begin_run}
use infinity_clicker.Engine.Run.Limits.{BegunCounted, press-count}
use infinity_clicker.Examples.Timing.{whole_ticks}

abbrev pub click : ActionProgram
click = record {
  steps =
      record {
        offset_ticks = 0;
        inputs = mouse_input left_down 0 tag_inf_click ∷ mouse_input left_up 0 tag_inf_click ∷ [];
      }
      ∷ [];
  span_ticks = 0;
  inputs_per_action = 2;
  flat = mouse_input left_down 0 tag_inf_click ∷ mouse_input left_up 0 tag_inf_click ∷ [];
  error = none;
}

abbrev in_mode : TriggerMode → EngineConfig whole_ticks
in_mode m = record {
  mode = record { mode = m; burst_count = 3; fixed_count = 10; duration_ms = 1000 };
  max_mode = false;
  period = 500;
  late_policy = catch_up;
  max_batch_actions = 8;
  max_inflight = 0;
  prog = click;
  max_prog = click;
}

-- An armed engine in a run with two actions left.
abbrev pub two_left : TriggerMode → Engine whole_ticks
two_left m = record {
  cfg = in_mode m;
  pending = none;
  armed = true;
  state = running;
  run = record { stop = false; emergency = false; remaining = 2; end_qpc = no_end };
  queue = [];
  outputs = [];
  run_actions = 0;
  run_missed = 0;
  total_actions = 0;
  total_missed = 0;
  runs_completed = 0;
}

abbrev clocks : Clocks
clocks = record { gate_ticks = 20; catch_up_limit = 2500 }

-- An iteration whose wait reaches its deadline at a time.
abbrev fires_at : ℕ → Tick whole_ticks
fires_at now = record {
  commands = none;
  now = now;
  gate_open = true;
  now_waiting = now;
  wait = reached;
  fire = now;
}

run_timed-count_example : Counted whole_ticks 2 (
    run_timed whole_ticks
      (λ p q. p == q)
      clocks
      (quiet_all whole_ticks (fires_at 1000 ∷ fires_at 1500 ∷ fires_at 2000 ∷ []))
      (timed_start whole_ticks 1000 (two_left toggle)))
run_timed-count_example =
    run_timed-count whole_ticks (λ p q. p == q) clocks 1000 2 (two_left toggle)
      (fires_at 1000 ∷ fires_at 1500 ∷ fires_at 2000 ∷ []) refl (omega arith) refl

-- Two actions of one step are over with the third deadline, a cut wait before it.
run_timed-ends_example :
    is_ended (
      run_timed whole_ticks
        (λ p q. p == q)
        clocks
        (quiet_all whole_ticks (
          fires_at 1000
          ∷ record (fires_at 1200) { wait = chunked }
          ∷ fires_at 1500
          ∷ fires_at 2000
          ∷ []))
        (timed_start whole_ticks 1000 (two_left toggle)))
    ≡ true
run_timed-ends_example =
    run_timed-ends whole_ticks (λ p q. p == q) clocks 1000 2 (two_left toggle)
      (fires_at 1000
        ∷ record (fires_at 1200) { wait = chunked }
        ∷ fires_at 1500
        ∷ fires_at 2000
        ∷ [])
      refl (omega arith) refl (refl, (refl, (refl, (refl, _)))) (omega arith)

-- A press in Toggle mode stops the run.
run_commands-stop_example :
    (run_commands whole_ticks (two_left toggle) (trigger_down 7 ∷ [])).run.stop
    ≡ (false || any_stop whole_ticks toggle (trigger_down 7 ∷ []))
run_commands-stop_example = run_commands-stop whole_ticks (two_left toggle) (trigger_down 7 ∷ [])

-- Two presses in Burst mode add six actions.
run_commands-remaining_example :
    let e =
      run_commands whole_ticks
        (two_left burst)
        (trigger_down 7 ∷ trigger_up 8 ∷ trigger_down 9 ∷ []) in
    e.run.remaining ≡ 8
run_commands-remaining_example =
    run_commands-remaining whole_ticks (two_left burst)
      (trigger_down 7 ∷ trigger_up 8 ∷ trigger_down 9 ∷ []) (omega arith)

run_commands-emergency_example : IsHalted whole_ticks (
    run_commands whole_ticks
      (two_left burst)
      ((trigger_down 7 ∷ []) ++ emergency_stop ∷ trigger_up 8 ∷ []))
run_commands-emergency_example =
    run_commands-emergency whole_ticks (two_left burst) (trigger_down 7 ∷ []) (trigger_up 8 ∷ [])
      refl refl

idle_commands-emergency_example : IsQuiet whole_ticks (
    idle_commands whole_ticks
      (two_left burst, no_plan)
      ((trigger_down 7 ∷ []) ++ emergency_stop ∷ trigger_down 8 ∷ []))
idle_commands-emergency_example =
    idle_commands-emergency whole_ticks (two_left burst, no_plan) (trigger_down 7 ∷ [])
      (trigger_down 8 ∷ []) refl

-- In Burst mode a press asks for three actions, which are over with the fourth deadline.
abbrev four_ticks : List (Tick whole_ticks)
four_ticks = fires_at 1000 ∷ fires_at 1500 ∷ fires_at 2000 ∷ fires_at 2500 ∷ []

press-count_example :
    let r = idle_commands whole_ticks (two_left burst, no_plan) (trigger_down 7 ∷ []) in
    (r.1.starts ≡ true)
    × BegunCounted whole_ticks
        (λ ms. ms * 10000)
        (λ p q. p == q)
        clocks
        1000
        3
        four_ticks
        (begin_run whole_ticks (λ ms. ms * 10000) r.1.limits 1000 r.0)
press-count_example =
    press-count whole_ticks (λ ms. ms * 10000) (λ p q. p == q) clocks 1000 7 (two_left burst)
      four_ticks refl refl refl refl (omega arith) (omega arith) (refl, (refl, (refl, (refl, _))))
      (omega arith)
