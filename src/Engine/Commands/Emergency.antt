-- ===== src/Engine/Commands/Emergency.antt =====
-- The emergency stop among other commands, in a run and outside one: `handleRunCommands` and the
-- loop of `threadMain` in src/scheduler/Engine.cpp.
use infinity_clicker.Base.{Bool, true, false, ◌&&◌, not, ◌≡◌, refl, arith, List, [], ◌∷◌, ◌++◌}
use infinity_clicker.Modes.Timeline.{PeriodArith}
use infinity_clicker.Engine.{Command, arm, start_run, emergency_stop, quit, Engine}
use infinity_clicker.Engine.Commands.{
  run_command, run_commands, idle_command, idle_commands, IdlePlan,
}

module _ (pa : PeriodArith) where
  -- No command of the list ends the program.
  abbrev pub no_quit : List (Command pa) → Bool
  no_quit [] = true
  no_quit (quit ∷ cs) = false
  no_quit (c ∷ cs) = no_quit cs

  -- No command of the list arms the program.
  abbrev pub no_arm : List (Command pa) → Bool
  no_arm [] = true
  no_arm (arm on ∷ cs) = not on && no_arm cs
  no_arm (c ∷ cs) = no_arm cs

  -- No command of the list arms the program or starts a run by hand.
  abbrev pub no_begin : List (Command pa) → Bool
  no_begin [] = true
  no_begin (arm on ∷ cs) = not on && no_begin cs
  no_begin (start_run limits qpc ∷ cs) = false
  no_begin (c ∷ cs) = no_begin cs

  abbrev pub IsHalted : Engine pa → Type 0
  IsHalted e = (e.armed ≡ false) × (e.run.stop ≡ true) × (e.run.emergency ≡ true)

  after_emergency :
      (e : Engine pa) (cs : List (Command pa))
      → no_arm cs ≡ true
      → IsHalted e
      → IsHalted (run_commands pa e cs)
  unfolding run_commands run_command
  after_emergency e [] n h = h
  after_emergency e (arm true ∷ cs) n h = absurd ground arith
  after_emergency e (quit ∷ cs) n h = (h.0, refl, h.2)
  after_emergency e (c ∷ cs) n h = after_emergency (run_command pa e c) cs n ground arith

  -- An emergency stop anywhere in a batch ends the run as an emergency and leaves the program
  -- disarmed, unless the program is told to end before it, or it is armed again after it.
  pub run_commands-emergency :
      (e : Engine pa) (before after : List (Command pa))
      → no_quit before ≡ true
      → no_arm after ≡ true
      → IsHalted (run_commands pa e (before ++ emergency_stop ∷ after))
  unfolding run_commands run_command
  run_commands-emergency e [] after q n =
      after_emergency (run_command pa e emergency_stop) after n (refl, refl, refl)
  run_commands-emergency e (quit ∷ cs) after q n = absurd ground arith
  run_commands-emergency e (c ∷ cs) after q n =
      run_commands-emergency (run_command pa e c) cs after q n

  abbrev pub IsQuiet : Engine pa × IdlePlan → Type 0
  IsQuiet r = (r.0.armed ≡ false) × (r.1.starts ≡ false)

  idle_after :
      (r : Engine pa × IdlePlan) (cs : List (Command pa))
      → no_begin cs ≡ true
      → IsQuiet r
      → IsQuiet (idle_commands pa r cs)
  unfolding idle_commands idle_command
  idle_after r [] n h = h
  idle_after r (arm true ∷ cs) n h = absurd ground arith
  idle_after r (start_run limits qpc ∷ cs) n h = absurd ground arith
  idle_after r (c ∷ cs) n h = idle_after (idle_command pa r c) cs n ground arith

  -- An emergency stop anywhere in a batch that the idle loop handles leaves the program disarmed and
  -- starts no run, whatever came before it, unless it is armed or a run is started by hand after it.
  pub idle_commands-emergency :
      (r : Engine pa × IdlePlan) (before after : List (Command pa))
      → no_begin after ≡ true
      → IsQuiet (idle_commands pa r (before ++ emergency_stop ∷ after))
  unfolding idle_commands idle_command
  idle_commands-emergency r [] after n =
      idle_after (idle_command pa r emergency_stop) after n (refl, refl)
  idle_commands-emergency r (c ∷ cs) after n =
      idle_commands-emergency (idle_command pa r c) cs after n
