-- ===== src/Engine/Timed.antt =====
-- `runTimed` of src/scheduler/Engine.cpp, one iteration of its loop at a time. What the iteration
-- reads from its surroundings (the commands, the clock, the gate, how a wait ended) is a `Tick`.
-- A pause is its own phase of the loop. Telemetry that is only published is left out.
use infinity_clicker.Base.{
  ℕ, zero, suc, ◌+◌, ◌-◌, ◌*◌, ◌%◌, ◌^◌, Bool, true, false, ◌&&◌, ◌||◌, not, if◌then◌else◌, ltb,
  leb, ◌==◌, List, [], ◌∷◌, ◌++◌, Option, none, some, length, get_elem?,
}
use infinity_clicker.Modes.Timeline.{
  PeriodArith, Timeline, anchor, slot, next, skip_late, change_period,
}
use infinity_clicker.Input.Action.{Input, ActionStep, ActionProgram}
use infinity_clicker.Input.Sender.{u64}
use infinity_clicker.Engine.{
  EngineConfig, Engine, Command, LatePolicy, skip, catch_up, paused, running, send_inputs,
  release_held, k_unlimited,
}
use infinity_clicker.Engine.Commands.{run_commands}
pub mod Budget
pub mod Count
pub mod Progress
pub mod Ends

abbrev pub k_max_catch_up_batch : ℕ
k_max_catch_up_batch = 8

abbrev pub is_none {ℓ} : {A : Type ℓ} → Option A → Bool
is_none none = true
is_none (some a) = false

abbrev pub is_empty {ℓ} : {A : Type ℓ} → List A → Bool
is_empty [] = true
is_empty (x ∷ xs) = false

-- `ActionProgram::ok`
abbrev pub program_ok : ActionProgram → Bool
program_ok p = is_none p.error && not (is_empty p.steps)

-- How a wait for a deadline in the future ends: it is cut into chunks to publish, it is
-- interrupted by a command, or the deadline is reached.
pub data Wait : Type 0 where
  chunked interrupted reached : Wait

abbrev pub is_reached : Wait → Bool
is_reached reached = true
is_reached _ = false

pub data Phase : Type 0 where
  at_loop pausing : Phase

abbrev pub is_skip : LatePolicy → Bool
is_skip skip = true
is_skip catch_up = false

pub record Clocks : Type 0 where
  pub gate_ticks : ℕ
  pub catch_up_limit : ℕ

module _ (pa : PeriodArith) where
  pub record Tick : Type 0 where
    pub commands : Option (List (Command pa))
    pub now : ℕ
    pub gate_open : Bool
    pub now_waiting : ℕ
    pub wait : Wait
    pub fire : ℕ

  pub record TimedLoop : Type 0 where
    pub engine : Engine pa
    pub tl : Timeline pa
    pub step : ℕ
    pub first : Bool
    pub last_gate : ℕ
    pub phase : Phase

  pub data Next : Type 0 where
    go_on : TimedLoop → Next
    ended : Engine pa → Next
    to_max : Engine pa → Next

  -- `cmdFlag_.load() && handleRunCommands()`
  unfoldable pub poll : Option (List (Command pa)) → Engine pa → Engine pa
  poll none e = e
  poll (some cs) e = run_commands pa e cs

  abbrev pub polled_stop : Option (List (Command pa)) → Engine pa → Bool
  polled_stop none e = false
  polled_stop (some cs) e = (run_commands pa e cs).run.stop

  -- `while (batch < cap && slot(k + batch) <= fire && slot(k + batch) < endQpc) ++batch;`
  unfoldable pub grow_batch : Timeline pa → ℕ → ℕ → ℕ → ℕ → ℕ → ℕ
  grow_batch tl cap fire end zero batch = batch
  grow_batch tl cap fire end (suc n) batch =
      let more = grow_batch tl cap fire end n (batch + 1) in
      let due = slot pa tl (tl.k + batch) in
      if ltb batch cap && leb due fire && ltb due end then more else batch

  -- How many actions go out in this call.
  unfoldable pub batch_size : TimedLoop → ℕ → ℕ
  batch_size l fire =
      let e = l.engine in
      let cap =
        if leb k_max_catch_up_batch e.run.remaining
        then k_max_catch_up_batch
        else e.run.remaining in
      if l.step == 0 && not (is_skip e.cfg.late_policy) && length e.cfg.prog.steps == 1
      then grow_batch l.tl cap fire e.run.end_qpc k_max_catch_up_batch 1
      else 1

  abbrev pub copies : ℕ → List Input → List Input
  copies zero is = []
  copies (suc n) is = is ++ copies n is

  -- The call of the sender and the accounting after it.
  unfoldable pub fire_step : ℕ → List Input → TimedLoop → TimedLoop
  fire_step fire inputs l =
      let e = l.engine in
      let batch = batch_size l fire in
      let sent = record e {
        outputs = e.outputs ++ send_inputs (copies batch inputs) ∷ [];
        run_actions = if l.step == 0 then e.run_actions + batch else e.run_actions;
      } in
      if l.step + 1 == length e.cfg.prog.steps
      then record l {
        engine = record sent {
          run =
              if e.run.remaining == k_unlimited
              then e.run
              else record (e.run) { remaining = u64 (e.run.remaining + 2 ^ 64 - batch) };
        };
        tl = record (l.tl) { k = l.tl.k + batch };
        step = 0;
        first = if l.step == 0 then false else l.first;
      }
      else record l {
        engine = sent;
        step = l.step + 1;
        first = if l.step == 0 then false else l.first;
      }

  -- Waiting for the deadline of the step, then sending it.
  unfoldable pub wait_for : Option ActionStep → Tick → TimedLoop → Next
  wait_for none t l = ended l.engine
  wait_for (some st) t l =
      if ltb t.now_waiting (next pa l.tl + st.offset_ticks) && not (is_reached t.wait)
      then go_on l
      else go_on (fire_step t.fire st.inputs l)

  unfoldable pub wait_and_fire : Tick → TimedLoop → Next
  wait_and_fire t l = wait_for (get_elem? l.engine.cfg.prog.steps l.step) t l

  -- The lateness policy.
  unfoldable pub adjust_late : Clocks → Tick → TimedLoop → TimedLoop
  adjust_late ck t l =
      let e = l.engine in
      let (tl', missed) = skip_late pa l.tl t.now in
      if not l.first && (is_skip e.cfg.late_policy || ltb (next pa l.tl + ck.catch_up_limit) t.now)
      then record l { tl = tl'; engine = record e { run_missed = u64 (e.run_missed + missed) } }
      else l

  -- The rest of an iteration at an action boundary, once the gate is open.
  unfoldable pub start_action : Clocks → Tick → TimedLoop → Next
  start_action ck t l =
      let l' = adjust_late ck t l in
      if leb l'.engine.run.end_qpc (next pa l'.tl) then ended l'.engine else wait_and_fire t l'

  -- The gate, looked at every two milliseconds at most.
  unfoldable pub check_gate : Clocks → Tick → TimedLoop → Next
  check_gate ck t l =
      let seen = record l { last_gate = t.now } in
      let e = l.engine in
      if leb (l.last_gate + ck.gate_ticks) t.now
      then (if t.gate_open
          then start_action ck t seen
          else go_on (record seen {
            engine = record e { outputs = e.outputs ++ release_held ∷ []; state = paused };
            phase = pausing;
          }))
      else start_action ck t l

  -- `same_rate` compares the rates of two configurations.
  module _ (same_rate : pa.Period → pa.Period → Bool) where
    unfoldable pub take_config : EngineConfig pa → TimedLoop → TimedLoop
    take_config c l =
        let e = l.engine in
        record l {
          engine = record e { cfg = c; pending = none };
          tl =
              if c.max_mode || same_rate c.period e.cfg.period
              then l.tl
              else change_period pa l.tl c.period;
        }

    -- A pending configuration is taken over at an action boundary.
    unfoldable pub apply_pending : Option (EngineConfig pa) → TimedLoop → TimedLoop
    apply_pending none l = l
    apply_pending (some c) l = take_config c l

    -- An iteration at an action boundary.
    unfoldable pub action_boundary : Clocks → Tick → TimedLoop → Next
    action_boundary ck t l =
        let l' = apply_pending l.engine.pending l in
        let e = l'.engine in
        if not (is_none l.engine.pending) && e.cfg.max_mode
        then to_max e
        else if not (program_ok e.cfg.prog) || e.run.remaining == 0
        then ended e
        else check_gate ck t l'

    -- A round of the loop in `pauseUntilGate`, and the fresh grid after it.
    unfoldable pub pause_round : Tick → TimedLoop → Next
    pause_round t l =
        let e = poll t.commands l.engine in
        if polled_stop t.commands l.engine
        then ended e
        else if t.gate_open
        then go_on (record l {
          engine = record e { state = running };
          tl = anchor pa t.now l.tl.period;
          phase = at_loop;
        })
        else go_on (record l { engine = e })

    unfoldable pub loop_round : Clocks → Tick → TimedLoop → Next
    loop_round ck t l =
        let e = poll t.commands l.engine in
        let l' = record l { engine = e } in
        if polled_stop t.commands l.engine
        then ended e
        else if l.step == 0
        then action_boundary ck t l'
        else wait_and_fire t l'

    unfoldable pub in_phase : Phase → Clocks → Tick → TimedLoop → Next
    in_phase at_loop ck t l = loop_round ck t l
    in_phase pausing ck t l = pause_round t l

    -- One iteration of `runTimed`.
    unfoldable pub timed_step : Clocks → Tick → TimedLoop → Next
    timed_step ck t l = in_phase l.phase ck t l

    -- The loop over as many iterations as there are ticks.
    unfoldable pub run_timed : Clocks → List Tick → TimedLoop → Next
    run_timed ck [] l = go_on l
    run_timed ck (t ∷ ts) l = elim (timed_step ck t l) [
      | go_on l' ↦ run_timed ck ts l'
      | ended e ↦ ended e
      | to_max e ↦ to_max e
    ]

  -- What `runTimed` starts from.
  unfoldable pub timed_start : ℕ → Engine pa → TimedLoop
  timed_start now e = record {
    engine = e;
    tl = anchor pa now e.cfg.period;
    step = 0;
    first = true;
    last_gate = 0;
    phase = at_loop;
  }
