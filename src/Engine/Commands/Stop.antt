-- ===== src/Engine/Commands/Stop.antt =====
-- What the commands of a batch do to a run: `handleRunCommands` of src/scheduler/Engine.cpp.
use infinity_clicker.Base.{
  ℕ, Bool, true, false, ◌||◌, not, ◌≡◌, ◌∙◌, refl, ap, arith, List, [], ◌∷◌,
}
use infinity_clicker.Modes.{
  TriggerMode, ModeParams, hold, toggle, burst, count, duration, decide_on_trigger_down,
  decide_on_trigger_up, decide_down, decide_up,
}
use infinity_clicker.Modes.Timeline.{PeriodArith}
use infinity_clicker.Engine.{
  Command, set_config, arm, trigger_down, trigger_up, start_run, stop_run, emergency_stop, quit,
  reset_totals, Engine,
}
use infinity_clicker.Engine.Commands.{run_command, run_commands, is_stop}

-- The modes in which pressing the trigger again ends the run.
abbrev pub press_stops : TriggerMode → Bool
press_stops toggle = true
press_stops count = true
press_stops duration = true
press_stops _ = false

abbrev pub release_stops : TriggerMode → Bool
release_stops hold = true
release_stops _ = false

press-stop :
    (m : TriggerMode) (p : ModeParams)
    → p.mode ≡ m
    → is_stop (decide_on_trigger_down p true).kind ≡ press_stops m
unfolding decide_on_trigger_down decide_down
press-stop hold p h = ap (λ m. is_stop (decide_down m p true).kind) h
press-stop toggle p h = ap (λ m. is_stop (decide_down m p true).kind) h
press-stop burst p h = ap (λ m. is_stop (decide_down m p true).kind) h
press-stop count p h = ap (λ m. is_stop (decide_down m p true).kind) h
press-stop duration p h = ap (λ m. is_stop (decide_down m p true).kind) h

release-stop :
    (m : TriggerMode) (p : ModeParams)
    → p.mode ≡ m
    → is_stop (decide_on_trigger_up p true).kind ≡ release_stops m
unfolding decide_on_trigger_up decide_up
release-stop hold p h = ap (λ m. is_stop (decide_up m true).kind) h
release-stop toggle p h = ap (λ m. is_stop (decide_up m true).kind) h
release-stop burst p h = ap (λ m. is_stop (decide_up m true).kind) h
release-stop count p h = ap (λ m. is_stop (decide_up m true).kind) h
release-stop duration p h = ap (λ m. is_stop (decide_up m true).kind) h

module _ (pa : PeriodArith) where
  -- The commands that end a run in a mode.
  abbrev pub asks_stop : TriggerMode → Command pa → Bool
  asks_stop m (set_config c) = false
  asks_stop m (arm on) = not on
  asks_stop m (trigger_down qpc) = press_stops m
  asks_stop m (trigger_up qpc) = release_stops m
  asks_stop m (start_run limits qpc) = false
  asks_stop m stop_run = true
  asks_stop m emergency_stop = true
  asks_stop m quit = true
  asks_stop m reset_totals = false

  abbrev pub any_stop : TriggerMode → List (Command pa) → Bool
  any_stop m [] = false
  any_stop m (c ∷ cs) = asks_stop m c || any_stop m cs

  down-stop :
      (m : TriggerMode) (e : Engine pa) (qpc : ℕ)
      → e.cfg.mode.mode ≡ m
      → (run_command pa e (trigger_down qpc)).run.stop ≡ (e.run.stop || press_stops m)
  unfolding run_command
  down-stop m e qpc h = ground (arith, press-stop m e.cfg.mode h)

  up-stop :
      (m : TriggerMode) (e : Engine pa) (qpc : ℕ)
      → e.cfg.mode.mode ≡ m
      → (run_command pa e (trigger_up qpc)).run.stop ≡ (e.run.stop || release_stops m)
  unfolding run_command
  up-stop m e qpc h = ground (arith, release-stop m e.cfg.mode h)

  command-stop :
      (e : Engine pa) (c : Command pa)
      → (run_command pa e c).run.stop ≡ (e.run.stop || asks_stop e.cfg.mode.mode c)
  unfolding run_command
  command-stop e (trigger_down qpc) = down-stop e.cfg.mode.mode e qpc refl
  command-stop e (trigger_up qpc) = up-stop e.cfg.mode.mode e qpc refl
  command-stop e (arm true) = ground arith
  command-stop e _ = ground arith

  pub command-cfg : (e : Engine pa) (c : Command pa) → (run_command pa e c).cfg ≡ e.cfg
  unfolding run_command
  command-cfg e (set_config c) = refl
  command-cfg e (arm on) = refl
  command-cfg e (trigger_down qpc) = refl
  command-cfg e (trigger_up qpc) = refl
  command-cfg e _ = refl

  then-stop :
      (e : Engine pa) (c : Command pa) (cs : List (Command pa)) (r : Engine pa)
      → r.run.stop
        ≡ ((run_command pa e c).run.stop || any_stop (run_command pa e c).cfg.mode.mode cs)
      → r.run.stop ≡ (e.run.stop || any_stop e.cfg.mode.mode (c ∷ cs))
  then-stop e c cs r h =
      let h' : r.run.stop ≡ ((run_command pa e c).run.stop || any_stop e.cfg.mode.mode cs) =
        h ∙ ap (λ k. (run_command pa e c).run.stop || any_stop k.mode.mode cs) (command-cfg e c) in
      ground (arith, h', command-stop e c)

  -- A batch of commands makes a run stop exactly when one of them asks for it in the mode of the
  -- run: a stop, an emergency stop, the end of the program or disarming in every mode, the release
  -- of the trigger in Hold, a press in Toggle, Count and Duration. A configuration that arrives with
  -- them does not change the mode meanwhile.
  pub run_commands-stop :
      (e : Engine pa) (cs : List (Command pa))
      → (run_commands pa e cs).run.stop ≡ (e.run.stop || any_stop e.cfg.mode.mode cs)
  unfolding run_commands
  run_commands-stop e [] = ground arith
  run_commands-stop e (quit ∷ cs) = ground (arith, command-stop e quit)
  run_commands-stop e (c ∷ cs) =
      then-stop e c cs (run_commands pa (run_command pa e c) cs)
        (run_commands-stop (run_command pa e c) cs)
