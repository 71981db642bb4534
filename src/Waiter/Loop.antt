-- ===== src/Waiter/Loop.antt =====
-- `waitUntil` and `timerSleep` of src/scheduler/PreciseWaiter.cpp. What the loop reads from outside
-- is a list of rounds; a wait that has not ended when they are used up is `none`.
use infinity_clicker.Base.{
  ℕ, zero, suc, ◌+◌, ◌-◌, Bool, true, ◌&&◌, not, if◌then◌else◌, ltb, leb, List, [], ◌∷◌, Option,
  none, some, ℤ, pos, negsuc, sub_ℕ,
}
use infinity_clicker.Profiles.Keys.{Precision, eco, standard, ultra}
use infinity_clicker.Waiter.{Waiter, margin_ticks, record_oversleep}

pub data WaitResult : Type 0 where
  reached interrupted : WaitResult

-- A round of the loop: the clock, the flag, how a sleep went, the clock after it, and the turns of
-- the spin, each with the flag and the clock that it reads.
pub record Round : Type 0 where
  pub now : ℕ
  pub flag : Bool
  pub timer_set : Bool
  pub event_first : Bool
  pub woke : ℕ
  pub turns : List (Bool × ℕ)

-- `timerSleep`: does the wait end by the timer, and not by the event?
unfoldable pub timer_sleep : Bool → Bool → Bool
timer_sleep timer_set event_first = if not timer_set then true else not event_first

-- A time to go as `SetWaitableTimerEx` takes it: negative, and at least one unit.
abbrev pub relative : ℤ → ℤ
relative (pos zero) = negsuc 0
relative (pos (suc n)) = negsuc n
relative (negsuc n) = negsuc 0

-- The due time that `timerSleep` sets; `in_100ns` is `clk::ticksTo100ns`.
unfoldable pub due_time : (ℤ → ℤ) → ℕ → ℤ
due_time in_100ns ticks = relative (in_100ns (pos ticks))

-- The busy wait from the time `t` on: how it ends and when.
unfoldable pub spin : ℕ → ℕ → List (Bool × ℕ) → Option (WaitResult × ℕ)
spin deadline t [] = if ltb t deadline then none else some (reached, t)
spin deadline t ((flag, next) ∷ turns) =
    let rest = spin deadline next turns in
    if ltb t deadline then if flag then some (interrupted, t) else rest else some (reached, t)

-- The end of a wait, with the last reading of the clock.
pub record Ended : Type 0 where
  pub result : WaitResult
  pub at : ℕ
  pub waiter : Waiter

abbrev pub min_sleep : (ℕ → ℕ) → Precision → ℕ
min_sleep us eco = us 30
min_sleep us standard = us 120
min_sleep us ultra = us 120

-- The sleep in the kernel that a round makes, if it makes one: `rem - marginTicks(p)`, if that is at
-- least `minSleep`, cut to `chunk` where this is not 0.
unfoldable pub sleep_for : (ℕ → ℕ) → Waiter → Precision → ℕ → ℕ → Option ℕ
unfolding margin_ticks
sleep_for us w p chunk rem =
    let margin = margin_ticks us w p in
    let whole = rem - margin in
    if leb (margin + min_sleep us p) rem
    then some (if ltb 0 chunk && ltb chunk whole then chunk else whole)
    else none

-- The accounts of a spin.
abbrev pub after_spin : Waiter → ℕ → Option (WaitResult × ℕ) → Option Ended
after_spin w now none = none
after_spin w now (some (result, t)) =
    some record {
      result = result;
      at = t;
      waiter = record w { spin_ticks = w.spin_ticks + (t - now) };
    }

-- The accounts of a sleep.
abbrev pub after_sleep : Waiter → ℕ → ℕ → Waiter
after_sleep w now woke = record w {
  sleep_ticks = w.sleep_ticks + (woke - now);
  timer_waits = w.timer_waits + 1;
}

module _ (us : ℕ → ℕ) (sort : List ℤ → List ℤ) (rank : ℕ → ℕ → ℕ) where
  -- The sleep of a round, and what is left of the wait after it.
  abbrev pub slept : Waiter → Round → ℕ → (Waiter → Option Ended) → Option Ended
  slept w r length go_on =
      let w' = after_sleep w r.now r.woke in
      if timer_sleep r.timer_set r.event_first
      then go_on (record_oversleep sort rank w' (sub_ℕ r.woke (r.now + length)))
      else some record { result = interrupted; at = r.woke; waiter = w' }

  abbrev pub sleep_or_spin : ℕ → Waiter → Round → (Waiter → Option Ended) → Option ℕ → Option Ended
  sleep_or_spin deadline w r go_on (some length) = slept w r length go_on
  sleep_or_spin deadline w r go_on none = after_spin w r.now (spin deadline r.now r.turns)

  unfoldable pub wait_until : ℕ → Precision → ℕ → Waiter → List Round → Option Ended
  unfolding timer_sleep sleep_for spin record_oversleep
  wait_until deadline p chunk w [] = none
  wait_until deadline p chunk w (r ∷ rounds) =
      if leb deadline r.now
      then some record { result = reached; at = r.now; waiter = w }
      else if r.flag
      then some record { result = interrupted; at = r.now; waiter = w }
      else sleep_or_spin deadline w r (λ w'. wait_until deadline p chunk w' rounds)
          (sleep_for us w p chunk (deadline - r.now))
