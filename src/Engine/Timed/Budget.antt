-- ===== src/Engine/Timed/Budget.antt =====
-- `runTimed` of src/scheduler/Engine.cpp sends no more actions than the run is limited to.
use infinity_clicker.Base.{
  ℕ, zero, suc, ◌+◌, ◌≤◌, ◌<◌, Bool, if◌then◌else◌, leb, ◌==◌, ◌≡◌, ◌≢◌, ◌⊎◌, inr, refl, arith,
  List, [], ◌∷◌, Option, none, some, length, get_elem?,
}
use infinity_clicker.Modes.Timeline.{PeriodArith, Timeline}
use infinity_clicker.Input.Action.{ActionStep, Input}
use infinity_clicker.Engine.{Engine, EngineConfig, k_unlimited}
use infinity_clicker.Engine.Timed.{
  Tick, TimedLoop, Next, go_on, ended, to_max, Clocks, Phase, at_loop, pausing, poll, grow_batch,
  batch_size, fire_step, wait_for, wait_and_fire, adjust_late, start_action, check_gate,
  apply_pending, take_config, action_boundary, pause_round, loop_round, in_phase, timed_step,
  run_timed, k_max_catch_up_batch,
}

module _ (pa : PeriodArith) where
  -- A tick without commands.
  abbrev pub quiet : Tick pa → Tick pa
  quiet t = record t { commands = none }

  abbrev pub quiet_all : List (Tick pa) → List (Tick pa)
  quiet_all [] = []
  quiet_all (t ∷ ts) = quiet t ∷ quiet_all ts

  grow_batch_bounds :
      (tl : Timeline pa) (cap fire end n batch : ℕ)
      → 1 ≤ batch
      → (1 ≤ grow_batch pa tl cap fire end n batch)
        × ((grow_batch pa tl cap fire end n batch ≤ cap)
            ⊎ (grow_batch pa tl cap fire end n batch ≡ batch))
  unfolding grow_batch
  grow_batch_bounds tl cap fire end zero batch h = (h, inr refl)
  grow_batch_bounds tl cap fire end (suc n) batch h =
      ground (arith, grow_batch_bounds tl cap fire end n (batch + 1))

  -- A call sends at least one action, and no more than remain, if one remains.
  pub batch_size_bounds :
      (l : TimedLoop pa) (fire : ℕ)
      → 0 < l.engine.run.remaining
      → (1 ≤ batch_size pa l fire)
        × (batch_size pa l fire ≤ l.engine.run.remaining)
        × (batch_size pa l fire ≤ k_max_catch_up_batch)
        × (l.step ≢ 0 → batch_size pa l fire ≡ 1)
        × (length l.engine.cfg.prog.steps ≢ 1 → batch_size pa l fire ≡ 1)
  unfolding batch_size
  batch_size_bounds l fire h =
      let rem = l.engine.run.remaining in
      let cap = if leb k_max_catch_up_batch rem then k_max_catch_up_batch else rem in
      ground (
        arith,
        grow_batch_bounds l.tl cap fire l.engine.run.end_qpc k_max_catch_up_batch 1 (omega arith),
      )

  -- 1 while an action has been started and not finished.
  abbrev pub in_action : TimedLoop pa → ℕ
  in_action l = if l.step == 0 then 0 else 1

  -- The run is limited, and an action that is under way is counted in what remains.
  pub record IsLimited (l : TimedLoop pa) : Type 0 where
    pub limited : l.engine.run.remaining < k_unlimited
    pub covered : l.step ≢ 0 → 0 < l.engine.run.remaining

  abbrev total : TimedLoop pa → ℕ
  total l = l.engine.run.remaining + l.engine.run_actions

  fire_step_balance :
      (fire : ℕ) (is : List Input) (l : TimedLoop pa)
      → l.engine.run.remaining < k_unlimited
      → 0 < l.engine.run.remaining
      → (total (fire_step pa fire is l) + in_action l
          ≡ total l + in_action (fire_step pa fire is l))
        × IsLimited (fire_step pa fire is l)
  unfolding fire_step
  fire_step_balance fire is l v h = ground (arith, batch_size_bounds l fire h)

  -- At the end of a run an action under way has been started, and not taken off what remains.
  abbrev pub Settled : TimedLoop pa → Engine pa → Type 0
  Settled l e =
      (e.run_actions + in_action l ≤ total l)
      × (total l ≤ e.run.remaining + e.run_actions + in_action l)

  -- An iteration without commands moves an action from what remains to what was started.
  abbrev pub Balanced : TimedLoop pa → Next pa → Type 0
  Balanced l (go_on l') = (total l' + in_action l ≡ total l + in_action l') × IsLimited l'
  Balanced l (ended e) = Settled l e
  Balanced l (to_max e) = Settled l e

  wait_for-Balanced :
      (o : Option ActionStep) (t : Tick pa) (l : TimedLoop pa)
      → l.engine.run.remaining < k_unlimited
      → 0 < l.engine.run.remaining
      → Balanced l (wait_for pa o t l)
  unfolding wait_for
  wait_for-Balanced none t l v h = ground arith
  wait_for-Balanced (some st) t l v h =
      let moved = fire_step_balance t.fire st.inputs l v h in
      let still : IsLimited l = record { limited = v; covered = λ n. h } in
      ground (arith, moved, still)

  wait_and_fire-Balanced :
      (t : Tick pa) (l : TimedLoop pa)
      → l.engine.run.remaining < k_unlimited
      → 0 < l.engine.run.remaining
      → Balanced l (wait_and_fire pa t l)
  unfolding wait_and_fire
  wait_and_fire-Balanced t l v h =
      wait_for-Balanced (get_elem? l.engine.cfg.prog.steps l.step) t l v h

  -- The parts of the loop that the count of actions depends on.
  abbrev Same : TimedLoop pa → TimedLoop pa → Type 0
  Same l m =
      (m.engine.run.remaining ≡ l.engine.run.remaining)
      × (m.engine.run_actions ≡ l.engine.run_actions)
      × (m.step ≡ l.step)

  Balanced-Same : (l m : TimedLoop pa) (r : Next pa) → Same l m → Balanced m r → Balanced l r
  Balanced-Same l m (go_on l') e b = ground arith
  Balanced-Same l m (ended x) e b = ground arith
  Balanced-Same l m (to_max x) e b = ground arith

  adjust_late-Same : (ck : Clocks) (t : Tick pa) (l : TimedLoop pa) → Same l (adjust_late pa ck t l)
  unfolding adjust_late
  adjust_late-Same ck t l = ground arith

  start_action-Balanced :
      (ck : Clocks) (t : Tick pa) (l : TimedLoop pa)
      → l.engine.run.remaining < k_unlimited
      → 0 < l.engine.run.remaining
      → Balanced l (start_action pa ck t l)
  unfolding start_action
  start_action-Balanced ck t l v h =
      let m = adjust_late pa ck t l in
      let same = adjust_late-Same ck t l in
      Balanced-Same l m _ same
        (ground (arith, wait_and_fire-Balanced t m (omega (arith, same)) (omega (arith, same))))

  check_gate-Balanced :
      (ck : Clocks) (t : Tick pa) (l : TimedLoop pa)
      → l.engine.run.remaining < k_unlimited
      → 0 < l.engine.run.remaining
      → Balanced l (check_gate pa ck t l)
  unfolding check_gate
  check_gate-Balanced ck t l v h =
      let seen : TimedLoop pa = record l { last_gate = t.now } in
      let still : IsLimited l = record { limited = v; covered = λ n. h } in
      ground (
        arith,
        Balanced-Same l seen (start_action pa ck t seen) (refl, refl, refl)
            (start_action-Balanced ck t seen v h),
        start_action-Balanced ck t l v h,
        still,
      )

  module _ (same_rate : pa.Period → pa.Period → Bool) where
    apply_pending-Same :
        (o : Option (EngineConfig pa)) (l : TimedLoop pa) → Same l (apply_pending pa same_rate o l)
    unfolding apply_pending take_config
    apply_pending-Same none l = (refl, refl, refl)
    apply_pending-Same (some c) l = (refl, refl, refl)

    action_boundary-Balanced :
        (ck : Clocks) (t : Tick pa) (l : TimedLoop pa)
        → IsLimited l
        → Balanced l (action_boundary pa same_rate ck t l)
    unfolding action_boundary
    action_boundary-Balanced ck t l v =
        let m = apply_pending pa same_rate l.engine.pending l in
        let same = apply_pending-Same l.engine.pending l in
        ground (
          arith,
          same,
          v,
          check_gate-Balanced ck t m,
          Balanced-Same l m (check_gate pa ck t m) same,
        )

    loop_round-Balanced :
        (ck : Clocks) (t : Tick pa) (l : TimedLoop pa)
        → IsLimited l
        → Balanced l (loop_round pa same_rate ck (quiet t) l)
    unfolding loop_round poll
    loop_round-Balanced ck t l v =
        let still : IsLimited (record l { engine = l.engine }) = v in
        ground (
          arith,
          action_boundary-Balanced ck (quiet t) l v,
          wait_and_fire-Balanced (quiet t) l v.limited,
          v,
        )

    pause_round-Balanced :
        (t : Tick pa) (l : TimedLoop pa)
        → IsLimited l
        → Balanced l (pause_round pa same_rate (quiet t) l)
    unfolding pause_round poll
    pause_round-Balanced t l v = ground (arith, v)

    -- Without commands an iteration, of the loop or of a pause, is balanced.
    pub in_phase-Balanced :
        (p : Phase) (ck : Clocks) (t : Tick pa) (l : TimedLoop pa)
        → IsLimited l
        → Balanced l (in_phase pa same_rate p ck (quiet t) l)
    unfolding in_phase
    in_phase-Balanced at_loop ck t l v = loop_round-Balanced ck t l v
    in_phase-Balanced pausing ck t l v = pause_round-Balanced t l v

    Balanced-trans :
        (l m : TimedLoop pa) (r : Next pa)
        → total m + in_action l ≡ total l + in_action m
        → Balanced m r
        → Balanced l r
    Balanced-trans l m (go_on l') e b = (omega (arith, b.0, e), b.1)
    Balanced-trans l m (ended x) e b = ground arith
    Balanced-trans l m (to_max x) e b = ground arith

    pub run-Balanced :
        (ck : Clocks) (ts : List (Tick pa)) (l : TimedLoop pa)
        → IsLimited l
        → Balanced l (run_timed pa same_rate ck (quiet_all ts) l)
    unfolding run_timed timed_step
    run-Balanced ck [] l v = (refl, v)
    run-Balanced ck (t ∷ ts) l v =
        after (in_phase pa same_rate l.phase ck (quiet t) l) (in_phase-Balanced l.phase ck t l v)
          (λ m w. run-Balanced ck ts m w)
      where
        after :
            (r : Next pa)
            → Balanced l r
            → ((m : TimedLoop pa)
                → IsLimited m
                → Balanced m (run_timed pa same_rate ck (quiet_all ts) m))
            → Balanced l (elim r [
              | go_on l' ↦ run_timed pa same_rate ck (quiet_all ts) l'
              | ended e ↦ ended e
              | to_max e ↦ to_max e
            ])
        after (go_on m) b rest =
            Balanced-trans l m (run_timed pa same_rate ck (quiet_all ts) m) b.0 (rest m b.1)
        after (ended e) b rest = b
        after (to_max e) b rest = b
