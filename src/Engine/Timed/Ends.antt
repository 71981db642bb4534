-- ===== src/Engine/Timed/Ends.antt =====
-- A limited run of `runTimed` in src/scheduler/Engine.cpp comes to its end.
use infinity_clicker.Base.{
  ℕ, ◌+◌, ◌*◌, ◌<◌, Bool, true, false, if◌then◌else◌, ◌≡◌, refl, ap, arith, List, [], ◌∷◌, All,
  none, length,
}
use infinity_clicker.Modes.Timeline.{PeriodArith}
use infinity_clicker.Engine.{Engine, k_unlimited}
use infinity_clicker.Engine.Timed.{
  Tick, TimedLoop, Next, go_on, ended, to_max, Clocks, is_reached, in_phase, timed_step, run_timed,
  timed_start,
}
use infinity_clicker.Engine.Timed.Budget.{quiet, quiet_all, IsLimited, Balanced, in_phase-Balanced}
use infinity_clicker.Engine.Timed.Progress.{left, Running, Progress, in_phase-Progress}

-- The run has ended: the loop was left, and not for full speed.
abbrev pub is_ended : {pa : PeriodArith} → Next pa → Bool
is_ended (ended e) = true
is_ended _ = false

module _ (pa : PeriodArith) where
  -- How many of the ticks reach the deadline that they wait for.
  abbrev pub reached_in : List (Tick pa) → ℕ
  reached_in [] = 0
  reached_in (t ∷ ts) = (if is_reached t.wait then 1 else 0) + reached_in ts

  abbrev pub Opens : List (Tick pa) → Type 0
  Opens ts = All (λ t. t.gate_open ≡ true) ts

  module _ (same_rate : pa.Period → pa.Period → Bool) where
    Ends : List (Tick pa) → Clocks → Type 0
    Ends ts ck =
        (l : TimedLoop pa)
        → Running pa l
        → IsLimited pa l
        → left pa l < reached_in ts
        → is_ended (run_timed pa same_rate ck (quiet_all pa ts) l) ≡ true

    run-Ends : (ck : Clocks) (ts : List (Tick pa)) → Opens ts → Ends ts ck
    unfolding Ends run_timed timed_step
    run-Ends ck [] o l r v m = absurd (omega arith)
    run-Ends ck (t ∷ ts) o l r v m =
        after (in_phase pa same_rate l.phase ck (quiet pa t) l)
          (in_phase-Balanced pa same_rate l.phase ck t l v)
          (in_phase-Progress pa same_rate l.phase ck t l r.0 o.0 r v) (run-Ends ck ts o.1)
      where
        after :
            (n : Next pa)
            → Balanced pa l n
            → Progress pa t l n
            → Ends ts ck
            → is_ended (elim n [
              | go_on l' ↦ run_timed pa same_rate ck (quiet_all pa ts) l'
              | ended e ↦ ended e
              | to_max e ↦ to_max e
            ])
              ≡ true
        after (go_on l') b p rest = rest l' p.0 b.1 (omega arith)
        after (ended e) b p rest = refl
        after (to_max e) b p rest = absurd p

    -- A run with a limit of `n` actions, over which no command arrives and the gate stays open, ends:
    -- at the latest when one more deadline has been reached than `n` actions have steps, however
    -- often the waits are cut up, and whether the actions are late, skipped or batched.
    pub run_timed-ends :
        (ck : Clocks) (now n : ℕ) (e : Engine pa) (ts : List (Tick pa))
        → e.run.remaining ≡ n
        → n < k_unlimited
        → e.pending ≡ none
        → Opens ts
        → n * length e.cfg.prog.steps < reached_in ts
        → is_ended (run_timed pa same_rate ck (quiet_all pa ts) (timed_start pa now e)) ≡ true
    unfolding timed_start Ends
    run_timed-ends ck now n e ts h u p o m =
        run-Ends ck ts o (timed_start pa now e) (refl, p)
          (record { limited = omega arith; covered = λ k. absurd (k refl) })
          (omega (arith, ap (λ r. r * length e.cfg.prog.steps) h, m))
