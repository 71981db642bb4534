-- ===== src/Engine/Max.antt =====
-- `runMax` of src/scheduler/Engine.cpp, one iteration of its loop at a time. What the iteration
-- reads from its surroundings is a `MaxTick`; `in_flight` is the number of events sent and not yet
-- observed, 0 if the difference is negative. Telemetry that is only published is left out.
use infinity_clicker.Base.{
  ℕ, ◌+◌, ◌-◌, ◌*◌, ◌%◌, ◌^◌, Bool, true, false, ◌&&◌, ◌||◌, not, if◌then◌else◌, ltb, leb, ◌==◌,
  List, [], ◌∷◌, ◌++◌, Option, none, some, take,
}
use infinity_clicker.Modes.Timeline.{PeriodArith}
use infinity_clicker.Input.Action.{Input, ActionProgram}
use infinity_clicker.Input.Sender.{u64}
use infinity_clicker.Engine.{
  EngineConfig, Engine, Command, paused, running, send_inputs, release_held, k_unlimited,
}
use infinity_clicker.Engine.Timed.{poll, polled_stop, copies, program_ok, Phase, at_loop, pausing}
pub mod Budget
pub mod Whole

-- `std::clamp(maxBatchActions, 1, 256)`
abbrev pub clamp_batch : ℕ → ℕ
clamp_batch n = if ltb n 1 then 1 else if ltb 256 n then 256 else n

module _ (pa : PeriodArith) where
  pub record MaxTick : Type 0 where
    pub commands : Option (List (Command pa))
    pub now : ℕ
    pub gate_open : Bool
    pub has_observed : Bool
    pub in_flight : ℕ

  pub record MaxLoop : Type 0 where
    pub engine : Engine pa
    pub batch : List Input
    pub per : ℕ
    pub batch_actions : ℕ
    pub last_gate : ℕ
    pub phase : Phase

  pub data MaxNext : Type 0 where
    max_on : MaxLoop → MaxNext
    max_ended : Engine pa → MaxNext

  unfoldable pub build_batch : MaxLoop → MaxLoop
  build_batch l =
      let cfg = l.engine.cfg in
      record l {
        batch = copies pa (clamp_batch cfg.max_batch_actions) cfg.max_prog.flat;
        per = cfg.max_prog.inputs_per_action;
        batch_actions = clamp_batch cfg.max_batch_actions;
      }

  -- How many actions of the batch go out.
  abbrev pub max_count : MaxLoop → ℕ
  max_count l =
      let left = l.engine.run.remaining in
      if left == k_unlimited
      then l.batch_actions
      else if leb l.batch_actions left
      then l.batch_actions
      else left

  unfoldable pub max_send : MaxLoop → MaxLoop
  max_send l =
      let e = l.engine in
      let n = max_count l in
      record l {
        engine = record e {
          outputs = e.outputs ++ send_inputs (take (n * l.per) l.batch) ∷ [];
          run_actions = e.run_actions + n;
          run =
              if e.run.remaining == k_unlimited
              then e.run
              else record (e.run) { remaining = u64 (e.run.remaining + 2 ^ 64 - n) };
        };
      }

  -- Nothing is sent while too much of what was sent has not been observed.
  unfoldable pub send_unless_behind : MaxTick → MaxLoop → MaxNext
  send_unless_behind t l =
      let limit = l.engine.cfg.max_inflight in
      if t.has_observed && not (limit == 0) && ltb limit t.in_flight
      then max_on l
      else max_on (max_send l)

  unfoldable pub max_gate : ℕ → MaxTick → MaxLoop → MaxNext
  max_gate gate_ticks t l =
      let seen = record l { last_gate = t.now } in
      let e = l.engine in
      if leb (l.last_gate + gate_ticks) t.now
      then (if t.gate_open
          then send_unless_behind t seen
          else max_on (record seen {
            engine = record e { outputs = e.outputs ++ release_held ∷ []; state = paused };
            phase = pausing;
          }))
      else send_unless_behind t l

  unfoldable pub max_checks : ℕ → MaxTick → MaxLoop → MaxNext
  max_checks gate_ticks t l =
      let run = l.engine.run in
      if run.remaining == 0 || leb run.end_qpc t.now
      then max_ended l.engine
      else max_gate gate_ticks t l

  -- A pending configuration is taken over at once; the run ends if it is no longer at full speed.
  unfoldable pub max_config : Option (EngineConfig pa) → ℕ → MaxTick → MaxLoop → MaxNext
  max_config none gate_ticks t l = max_checks gate_ticks t l
  max_config (some c) gate_ticks t l =
      let e = l.engine in
      let e' = record e { cfg = c; pending = none } in
      if not c.max_mode
      then max_ended e'
      else max_checks gate_ticks t (build_batch (record l { engine = e' }))

  unfoldable pub max_round : ℕ → MaxTick → MaxLoop → MaxNext
  max_round gate_ticks t l =
      let e = poll pa t.commands l.engine in
      if polled_stop pa t.commands l.engine
      then max_ended e
      else max_config e.pending gate_ticks t (record l { engine = e })

  -- A round of the loop in `pauseUntilGate`; after it the iteration goes on where it was.
  unfoldable pub max_pause : MaxTick → MaxLoop → MaxNext
  max_pause t l =
      let e = poll pa t.commands l.engine in
      if polled_stop pa t.commands l.engine
      then max_ended e
      else if t.gate_open
      then send_unless_behind t
          (record l { engine = record e { state = running }; phase = at_loop })
      else max_on (record l { engine = e })

  unfoldable pub max_phase : Phase → ℕ → MaxTick → MaxLoop → MaxNext
  max_phase at_loop gate_ticks t l = max_round gate_ticks t l
  max_phase pausing gate_ticks t l = max_pause t l

  unfoldable pub max_step : ℕ → MaxTick → MaxLoop → MaxNext
  max_step gate_ticks t l = max_phase l.phase gate_ticks t l

  unfoldable pub run_max : ℕ → List MaxTick → MaxLoop → MaxNext
  run_max gate_ticks [] l = max_on l
  run_max gate_ticks (t ∷ ts) l = elim (max_step gate_ticks t l) [
    | max_on l' ↦ run_max gate_ticks ts l'
    | max_ended e ↦ max_ended e
  ]

  -- What `runMax` starts from; it returns at once if the action does not compile.
  unfoldable pub max_start : Engine pa → MaxNext
  max_start e =
      if not (program_ok e.cfg.max_prog)
      then max_ended e
      else max_on (
          build_batch (record {
            engine = e;
            batch = [];
            per = 0;
            batch_actions = 0;
            last_gate = 0;
            phase = at_loop;
          }))
