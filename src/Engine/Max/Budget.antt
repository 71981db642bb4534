-- ===== src/Engine/Max/Budget.antt =====
-- `runMax` of src/scheduler/Engine.cpp sends no more actions than the run is limited to.
use infinity_clicker.Base.{ℕ, ◌+◌, ◌<◌, ◌≡◌, refl, ◌∙◌, arith, List, [], ◌∷◌, Option, none, some}
use infinity_clicker.Modes.Timeline.{PeriodArith}
use infinity_clicker.Engine.{Engine, EngineConfig, running, k_unlimited}
use infinity_clicker.Engine.Timed.{Phase, at_loop, pausing, poll}
use infinity_clicker.Engine.Max.{
  MaxTick, MaxLoop, MaxNext, max_on, max_ended, build_batch, max_send, send_unless_behind, max_gate,
  max_checks, max_config, max_round, max_pause, max_phase, max_step, run_max,
}

module _ (pa : PeriodArith) where
  -- A tick without commands.
  abbrev pub quiet : MaxTick pa → MaxTick pa
  quiet t = record t { commands = none }

  abbrev pub quiet_all : List (MaxTick pa) → List (MaxTick pa)
  quiet_all [] = []
  quiet_all (t ∷ ts) = quiet t ∷ quiet_all ts

  abbrev pub engine_of : MaxNext pa → Engine pa
  engine_of (max_on l) = l.engine
  engine_of (max_ended e) = e

  -- Both engines count the same actions together, started or remaining.
  abbrev pub IsConserved : Engine pa → Engine pa → Type 0
  IsConserved e e' =
      (e'.run.remaining + e'.run_actions ≡ e.run.remaining + e.run_actions)
      × (e'.run.remaining < k_unlimited)

  send-IsConserved :
      (t : MaxTick pa) (l : MaxLoop pa)
      → l.engine.run.remaining < k_unlimited
      → IsConserved l.engine (engine_of (send_unless_behind pa t l))
  unfolding send_unless_behind max_send
  send-IsConserved t l v = ground arith

  checks-IsConserved :
      (gate_ticks : ℕ) (t : MaxTick pa) (l : MaxLoop pa)
      → l.engine.run.remaining < k_unlimited
      → IsConserved l.engine (engine_of (max_checks pa gate_ticks t l))
  unfolding max_checks max_gate
  checks-IsConserved gate_ticks t l v =
      let seen : MaxLoop pa = record l { last_gate = t.now } in
      ground (arith, send-IsConserved t l v, send-IsConserved t seen v)

  config-IsConserved :
      (o : Option (EngineConfig pa)) (gate_ticks : ℕ) (t : MaxTick pa) (l : MaxLoop pa)
      → l.engine.run.remaining < k_unlimited
      → IsConserved l.engine (engine_of (max_config pa o gate_ticks t l))
  unfolding max_config build_batch
  config-IsConserved none gate_ticks t l v = checks-IsConserved gate_ticks t l v
  config-IsConserved (some c) gate_ticks t l v =
      let e = l.engine in
      let m : MaxLoop pa =
        build_batch pa (record l { engine = record e { cfg = c; pending = none } }) in
      ground (arith, checks-IsConserved gate_ticks t m v)

  phase-IsConserved :
      (p : Phase) (gate_ticks : ℕ) (t : MaxTick pa) (l : MaxLoop pa)
      → l.engine.run.remaining < k_unlimited
      → IsConserved l.engine (engine_of (max_phase pa p gate_ticks (quiet t) l))
  unfolding max_phase max_round max_pause poll
  phase-IsConserved at_loop gate_ticks t l v =
      config-IsConserved l.engine.pending gate_ticks (quiet t) l v
  phase-IsConserved pausing gate_ticks t l v =
      let e = l.engine in
      let m : MaxLoop pa = record l { engine = record e { state = running }; phase = at_loop } in
      ground (arith, send-IsConserved (quiet t) m v)

  -- Over a run at full speed on which no command arrives, with a limit, the actions sent and those
  -- that remain add up to the same, however it is paused, held back or given a new configuration.
  pub run_max-IsConserved :
      (gate_ticks : ℕ) (ts : List (MaxTick pa)) (l : MaxLoop pa)
      → l.engine.run.remaining < k_unlimited
      → IsConserved l.engine (engine_of (run_max pa gate_ticks (quiet_all ts) l))
  unfolding run_max max_step
  run_max-IsConserved gate_ticks [] l v = (refl, v)
  run_max-IsConserved gate_ticks (t ∷ ts) l v =
      after (max_phase pa l.phase gate_ticks (quiet t) l)
        (phase-IsConserved l.phase gate_ticks t l v) (λ m w. run_max-IsConserved gate_ticks ts m w)
    where
      after :
          (r : MaxNext pa)
          → IsConserved l.engine (engine_of r)
          → ((m : MaxLoop pa)
              → m.engine.run.remaining < k_unlimited
              → IsConserved m.engine (engine_of (run_max pa gate_ticks (quiet_all ts) m)))
          → IsConserved l.engine (
              engine_of (elim r [
                | max_on l' ↦ run_max pa gate_ticks (quiet_all ts) l'
                | max_ended e ↦ max_ended e
              ]))
      after (max_on m) b rest = let k = rest m b.1 in (k.0 ∙ b.0, k.1)
      after (max_ended e) b rest = b
