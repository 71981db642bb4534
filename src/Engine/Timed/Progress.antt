-- ===== src/Engine/Timed/Progress.antt =====
-- What an iteration of `runTimed` in src/scheduler/Engine.cpp does for the end of a limited run.
use infinity_clicker.Base.{
  ℕ, zero, suc, ◌+◌, ◌-◌, ◌*◌, ◌≤◌, ◌<◌, Bool, true, if◌then◌else◌, ◌≡◌, refl, ◌∙◌, arith, List, [],
  ◌∷◌, Option, none, some, length, get_elem?,
}
use native.Mathlib.Nat.{suc-mul, mul-le-mul_right}
use infinity_clicker.Modes.Timeline.{PeriodArith}
use infinity_clicker.Input.Action.{ActionStep, Input}
use infinity_clicker.Engine.{EngineConfig, k_unlimited}
use infinity_clicker.Engine.Timed.{
  Tick, TimedLoop, Next, go_on, ended, to_max, Clocks, Phase, at_loop, pausing, poll, is_reached,
  batch_size, fire_step, wait_for, wait_and_fire, adjust_late, start_action, check_gate,
  apply_pending, action_boundary, loop_round, in_phase,
}
use infinity_clicker.Engine.Timed.Budget.{quiet, IsLimited, batch_size_bounds}

mul_pos : (r n : ℕ) → 0 < r → n ≤ r * n
mul_pos zero n h = absurd (omega arith)
mul_pos (suc r) n h = omega (arith, suc-mul r n)

mul_drop : (r b n : ℕ) → 1 ≤ b → b ≤ r → (r - b) * n + n ≤ r * n
mul_drop zero b n h l = absurd (omega arith)
mul_drop (suc r) b n h l =
    let fewer : (suc r - b) * n ≤ r * n = mul-le-mul_right n (omega arith) in
    omega (arith, fewer, suc-mul r n)

get_elem?-bound {ℓ} :
    {A : Type ℓ} (xs : List A) (i : ℕ) (a : A) → get_elem? xs i ≡ some a → i < length xs
get_elem?-bound [] i a h = absurd (cc)
get_elem?-bound (x ∷ xs) zero a h = omega arith
get_elem?-bound (x ∷ xs) (suc i) a h = omega (arith, get_elem?-bound xs i a h)

module _ (pa : PeriodArith) where
  -- The steps that are left to send, if every call sends one action.
  abbrev pub left : TimedLoop pa → ℕ
  left l = l.engine.run.remaining * length l.engine.cfg.prog.steps - l.step

  -- 1 if the deadline of the tick is reached.
  abbrev pub reaches : Tick pa → ℕ
  reaches t = if is_reached t.wait then 1 else 0

  abbrev pub Running : TimedLoop pa → Type 0
  Running l = (l.phase ≡ at_loop) × (l.engine.pending ≡ none)

  -- The run has ended, or it has less left to send if a deadline was reached.
  abbrev pub Progress : Tick pa → TimedLoop pa → Next pa → Type 0
  Progress t l (go_on l') = Running l' × (left l' + reaches t ≤ left l)
  Progress t l (ended e) = Unit
  Progress t l (to_max e) = ⊥

  fire_step-left :
      (fire : ℕ) (is : List Input) (l : TimedLoop pa)
      → l.engine.run.remaining < k_unlimited
      → 0 < l.engine.run.remaining
      → l.step < length l.engine.cfg.prog.steps
      → left (fire_step pa fire is l) + 1 ≤ left l
  unfolding fire_step
  fire_step-left fire is l u h b =
      let steps = length l.engine.cfg.prog.steps in
      let rem = l.engine.run.remaining in
      let size = batch_size_bounds pa l fire h in
      ground
        (arith, size, mul_pos rem steps h, mul_drop rem (batch_size pa l fire) steps size.0 size.1)

  fire_step-Running :
      (fire : ℕ) (is : List Input) (l : TimedLoop pa) → Running l → Running (fire_step pa fire is l)
  unfolding fire_step
  fire_step-Running fire is l r = ground (arith, r)

  wait_for-Progress :
      (o : Option ActionStep) (t : Tick pa) (l : TimedLoop pa)
      → ((st : ActionStep) → o ≡ some st → l.step < length l.engine.cfg.prog.steps)
      → Running l
      → l.engine.run.remaining < k_unlimited
      → 0 < l.engine.run.remaining
      → Progress t l (wait_for pa o t l)
  unfolding wait_for
  wait_for-Progress none t l b r u h = _
  wait_for-Progress (some st) t l b r u h = ground (
    arith,
    r,
    fire_step-Running t.fire st.inputs l r,
    fire_step-left t.fire st.inputs l u h (b st refl),
  )

  wait_and_fire-Progress :
      (t : Tick pa) (l : TimedLoop pa)
      → Running l
      → l.engine.run.remaining < k_unlimited
      → 0 < l.engine.run.remaining
      → Progress t l (wait_and_fire pa t l)
  unfolding wait_and_fire
  wait_and_fire-Progress t l r u h =
      let steps = l.engine.cfg.prog.steps in
      wait_for-Progress (get_elem? steps l.step) t l (λ st e. get_elem?-bound steps l.step st e) r u
        h

  adjust_late_kept :
      (ck : Clocks) (t : Tick pa) (l : TimedLoop pa)
      → let m = adjust_late pa ck t l in
        (m.phase ≡ l.phase)
        × (m.engine.pending ≡ l.engine.pending)
        × (m.engine.run.remaining ≡ l.engine.run.remaining)
        × (left m ≡ left l)
  unfolding adjust_late
  adjust_late_kept ck t l = ground arith

  Progress-left :
      (t : Tick pa) (l m : TimedLoop pa) (r : Next pa)
      → left m ≡ left l
      → Progress t m r
      → Progress t l r
  Progress-left t l m (go_on l') e p = (p.0, omega (arith, p.1, e))
  Progress-left t l m (ended x) e p = _
  Progress-left t l m (to_max x) e p = p

  start_action-Progress :
      (ck : Clocks) (t : Tick pa) (l : TimedLoop pa)
      → Running l
      → l.engine.run.remaining < k_unlimited
      → 0 < l.engine.run.remaining
      → Progress t l (start_action pa ck t l)
  unfolding start_action
  start_action-Progress ck t l r u h =
      let m = adjust_late pa ck t l in
      let (p, q, e, same) = adjust_late_kept ck t l in
      Progress-left t l m _ same (
        ground (
          arith,
          wait_and_fire-Progress t m (p ∙ r.0, q ∙ r.1) (omega (arith, e)) (omega (arith, e)),
        ))

  check_gate-Progress :
      (ck : Clocks) (t : Tick pa) (l : TimedLoop pa)
      → t.gate_open ≡ true
      → Running l
      → l.engine.run.remaining < k_unlimited
      → 0 < l.engine.run.remaining
      → Progress t l (check_gate pa ck t l)
  unfolding check_gate
  check_gate-Progress ck t l g r u h =
      let seen : TimedLoop pa = record l { last_gate = t.now } in
      ground (
        arith,
        g,
        Progress-left t l seen (start_action pa ck t seen) refl
            (start_action-Progress ck t seen r u h),
        start_action-Progress ck t l r u h,
      )

  module _ (same_rate : pa.Period → pa.Period → Bool) where
    apply_pending-none :
        (o : Option (EngineConfig pa)) (l : TimedLoop pa)
        → o ≡ none
        → apply_pending pa same_rate o l ≡ l
    unfolding apply_pending
    apply_pending-none none l e = refl
    apply_pending-none (some c) l e = absurd (cc)

    action_boundary-Progress :
        (ck : Clocks) (t : Tick pa) (l : TimedLoop pa)
        → t.gate_open ≡ true
        → Running l
        → l.engine.run.remaining < k_unlimited
        → Progress t l (action_boundary pa same_rate ck t l)
    unfolding action_boundary apply_pending
    action_boundary-Progress ck t l g r u =
        let same = apply_pending-none l.engine.pending l r.1 in
        ground (arith, r, same, check_gate-Progress ck t l g r u)

    loop_round-Progress :
        (ck : Clocks) (t : Tick pa) (l : TimedLoop pa)
        → t.gate_open ≡ true
        → Running l
        → IsLimited pa l
        → Progress t l (loop_round pa same_rate ck (quiet pa t) l)
    unfolding loop_round poll
    loop_round-Progress ck t l g r v = ground (
      arith,
      action_boundary-Progress ck (quiet pa t) l g r v.limited,
      wait_and_fire-Progress (quiet pa t) l r v.limited,
      v,
    )

    pub in_phase-Progress :
        (p : Phase) (ck : Clocks) (t : Tick pa) (l : TimedLoop pa)
        → p ≡ at_loop
        → t.gate_open ≡ true
        → Running l
        → IsLimited pa l
        → Progress t l (in_phase pa same_rate p ck (quiet pa t) l)
    unfolding in_phase
    in_phase-Progress at_loop ck t l e g r v = loop_round-Progress ck t l g r v
    in_phase-Progress pausing ck t l e g r v = absurd (cc)
