-- ===== src/Engine/Commands/Extend.antt =====
-- How presses in Burst mode extend a run: `handleRunCommands` of src/scheduler/Engine.cpp.
use infinity_clicker.Base.{ℕ, ◌+◌, ◌<◌, true, if◌then◌else◌, ◌≡◌, refl, ap, arith, List, [], ◌∷◌}
use infinity_clicker.Modes.{
  TriggerMode, ModeParams, hold, toggle, burst, count, duration, decide_on_trigger_down,
  decide_down,
}
use infinity_clicker.Modes.Timeline.{PeriodArith}
use infinity_clicker.Engine.{Command, arm, trigger_down, quit, Engine, k_unlimited}
use infinity_clicker.Engine.Commands.{run_command, run_commands, is_stop, is_extend}
use infinity_clicker.Engine.Commands.Stop.{command-cfg}

-- What a press adds to a run, in a mode.
abbrev pub press_gain : TriggerMode → ModeParams → ℕ
press_gain burst p = p.burst_count
press_gain _ p = 0

press-gain :
    (m : TriggerMode) (p : ModeParams)
    → p.mode ≡ m
    → (if is_extend (decide_on_trigger_down p true).kind
        then (decide_on_trigger_down p true).extend_by
        else 0)
      ≡ press_gain m p
unfolding decide_on_trigger_down decide_down
press-gain hold p h =
    ap (λ m. let d = decide_down m p true in if is_extend d.kind then d.extend_by else 0) h
press-gain toggle p h =
    ap (λ m. let d = decide_down m p true in if is_extend d.kind then d.extend_by else 0) h
press-gain burst p h =
    ap (λ m. let d = decide_down m p true in if is_extend d.kind then d.extend_by else 0) h
press-gain count p h =
    ap (λ m. let d = decide_down m p true in if is_extend d.kind then d.extend_by else 0) h
press-gain duration p h =
    ap (λ m. let d = decide_down m p true in if is_extend d.kind then d.extend_by else 0) h

stop-gain :
    (m : TriggerMode) (p : ModeParams)
    → p.mode ≡ m
    → is_stop (decide_on_trigger_down p true).kind ≡ true
    → press_gain m p ≡ 0
unfolding decide_on_trigger_down decide_down
stop-gain burst p h s = absurd ground (arith, ap (λ m. is_stop (decide_down m p true).kind) h)
stop-gain _ p h s = refl

module _ (pa : PeriodArith) where
  abbrev pub command_gain : ModeParams → Command pa → ℕ
  command_gain p (trigger_down qpc) = press_gain p.mode p
  command_gain p _ = 0

  -- What a batch adds to a run; nothing after the end of the program is looked at.
  abbrev pub gain : ModeParams → List (Command pa) → ℕ
  gain p [] = 0
  gain p (quit ∷ cs) = 0
  gain p (c ∷ cs) = command_gain p c + gain p cs

  command-remaining :
      (e : Engine pa) (c : Command pa)
      → e.run.remaining + command_gain e.cfg.mode c < k_unlimited
      → (run_command pa e c).run.remaining ≡ e.run.remaining + command_gain e.cfg.mode c
  unfolding run_command
  command-remaining e (trigger_down qpc) h =
      ground (
        arith,
        press-gain e.cfg.mode.mode e.cfg.mode refl,
        stop-gain e.cfg.mode.mode e.cfg.mode refl,
      )
  command-remaining e (arm true) h = ground arith
  command-remaining e _ h = ground arith

  -- A run with a limit is extended by the burst count for each press in Burst mode, and by nothing
  -- else, as long as the sum stays under the value that means no limit.
  pub run_commands-remaining :
      (e : Engine pa) (cs : List (Command pa))
      → e.run.remaining + gain e.cfg.mode cs < k_unlimited
      → (run_commands pa e cs).run.remaining ≡ e.run.remaining + gain e.cfg.mode cs
  unfolding run_commands
  run_commands-remaining e [] h = ground arith
  run_commands-remaining e (quit ∷ cs) h = ground (arith, command-remaining e quit)
  run_commands-remaining e (c ∷ cs) h =
      let one = command-remaining e c (omega arith) in
      let same = ap (λ k. gain k.mode cs) (command-cfg pa e c) in
      omega (
        arith,
        run_commands-remaining (run_command pa e c) cs (omega (arith, one, same)),
        one,
        same,
      )
