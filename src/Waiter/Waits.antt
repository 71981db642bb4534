-- ===== src/Waiter/Waits.antt =====
-- How `waitUntil` of src/scheduler/PreciseWaiter.cpp ends.
use infinity_clicker.Base.{
  ℕ, ◌+◌, ◌-◌, ◌≤◌, ◌≡◌, refl, arith, subst, sym, false, true, List, [], ◌∷◌, inl, inr, Bool,
  Bool-cases, ltb, leb, leb→le, ◌||◌, ◌&&◌, none, some, Option, ℤ, sub_ℕ,
}
use infinity_clicker.Profiles.Keys.{Precision}
use infinity_clicker.Waiter.{Waiter, record_oversleep}
use infinity_clicker.Waiter.Loop.{
  WaitResult, reached, interrupted, Round, timer_sleep, spin, Ended, sleep_for, after_spin,
  after_sleep, slept, sleep_or_spin, wait_until,
}

-- Is the flag set in a turn of a spin?
abbrev pub flagged : List (Bool × ℕ) → Bool
flagged [] = false
flagged ((flag, t) ∷ turns) = flag || flagged turns

-- Did somebody ask in this round for the wait to end?
abbrev pub asked : Round → Bool
asked r = r.flag || r.timer_set && r.event_first || flagged r.turns

abbrev pub asked_in : List Round → Bool
asked_in [] = false
asked_in (r ∷ rounds) = asked r || asked_in rounds

-- A wait reaches its deadline, or is interrupted and somebody asked for it.
abbrev pub Accounts : ℕ → Bool → WaitResult → ℕ → Type 0
Accounts deadline was_asked reached at = deadline ≤ at
Accounts deadline was_asked interrupted at = was_asked ≡ true

Accounts-more :
    (deadline : ℕ) (a b : Bool) (result : WaitResult) (at : ℕ)
    → (a ≡ true → b ≡ true)
    → Accounts deadline a result at
    → Accounts deadline b result at
Accounts-more deadline a b reached at h e = e
Accounts-more deadline a b interrupted at h e = h e

-- The same of a spin and of a whole wait, if they have ended.
abbrev pub SpinAccounts : ℕ → Bool → Option (WaitResult × ℕ) → Type 0
SpinAccounts deadline was_asked none = Unit
SpinAccounts deadline was_asked (some (result, at)) = Accounts deadline was_asked result at

abbrev pub WaitAccounts : ℕ → Bool → Option Ended → Type 0
WaitAccounts deadline was_asked none = Unit
WaitAccounts deadline was_asked (some e) = Accounts deadline was_asked e.result e.at

WaitAccounts-more :
    (deadline : ℕ) (a b : Bool) (o : Option Ended)
    → (a ≡ true → b ≡ true)
    → WaitAccounts deadline a o
    → WaitAccounts deadline b o
WaitAccounts-more deadline a b none h w = _
WaitAccounts-more deadline a b (some e) h w = Accounts-more deadline a b e.result e.at h w

SpinAccounts-more :
    (deadline : ℕ) (a b : Bool) (o : Option (WaitResult × ℕ))
    → (a ≡ true → b ≡ true)
    → SpinAccounts deadline a o
    → SpinAccounts deadline b o
SpinAccounts-more deadline a b none h w = _
SpinAccounts-more deadline a b (some (result, at)) h w = Accounts-more deadline a b result at h w

or_right : (a b : Bool) → b ≡ true → (a || b) ≡ true
or_right a b h = ground arith

or_left : (a b : Bool) → a ≡ true → (a || b) ≡ true
or_left a b h = ground arith

spin-SpinAccounts :
    (deadline t : ℕ) (turns : List (Bool × ℕ))
    → SpinAccounts deadline (flagged turns) (spin deadline t turns)
unfolding spin
spin-SpinAccounts deadline t [] = elim (Bool-cases (ltb t deadline)) [
  | inl early ↦ rw early _
  | inr late ↦ rw late (ground arith)
]
spin-SpinAccounts deadline t ((flag, next) ∷ turns) = elim (Bool-cases (ltb t deadline)) [
  | inr late ↦ rw late (ground arith)
  | inl early ↦ elim (Bool-cases flag) [
    | inl set ↦ rw (early, set) refl
    | inr clear ↦
        rw (early, clear)
          (SpinAccounts-more deadline (flagged turns) (flagged turns) (spin deadline next turns)
            (λ h. h) (spin-SpinAccounts deadline next turns))
  ]
]

after_spin-WaitAccounts :
    (deadline now : ℕ) (w : Waiter) (a : Bool) (o : Option (WaitResult × ℕ))
    → SpinAccounts deadline a o
    → WaitAccounts deadline a (after_spin w now o)
after_spin-WaitAccounts deadline now w a none h = _
after_spin-WaitAccounts deadline now w a (some (result, at)) h = h

stopped_by_event : (a b : Bool) → timer_sleep a b ≡ false → (a && b) ≡ true
unfolding timer_sleep
stopped_by_event a b h = ground arith

module _ (us : ℕ → ℕ) (sort : List ℤ → List ℤ) (rank : ℕ → ℕ → ℕ) (deadline : ℕ) where
  slept-WaitAccounts :
      (w : Waiter) (r : Round) (length : ℕ) (later : Bool) (go_on : Waiter → Option Ended)
      → ((w' : Waiter) → WaitAccounts deadline later (go_on w'))
      → WaitAccounts deadline (asked r || later) (slept us sort rank w r length go_on)
  slept-WaitAccounts w r length later go_on h =
      elim (Bool-cases (timer_sleep r.timer_set r.event_first)) [
        | inl timed ↦ rw timed (
            WaitAccounts-more deadline later (asked r || later)
              (go_on (
                record_oversleep sort rank (after_sleep w r.now r.woke)
                  (sub_ℕ r.woke (r.now + length))))
              (or_right (asked r) later)
              (h (
                record_oversleep sort rank (after_sleep w r.now r.woke)
                  (sub_ℕ r.woke (r.now + length)))))
        | inr stopped ↦ rw stopped (ground (arith, stopped_by_event r.timer_set r.event_first))
      ]

  round-WaitAccounts :
      (w : Waiter) (r : Round) (sleeps : Option ℕ) (later : Bool) (go_on : Waiter → Option Ended)
      → ((w' : Waiter) → WaitAccounts deadline later (go_on w'))
      → WaitAccounts deadline
          (asked r || later)
          (sleep_or_spin us sort rank deadline w r go_on sleeps)
  round-WaitAccounts w r (some length) later go_on h = slept-WaitAccounts w r length later go_on h
  round-WaitAccounts w r none later go_on h =
      WaitAccounts-more deadline (flagged r.turns) (asked r || later)
        (after_spin w r.now (spin deadline r.now r.turns)) (λ e. ground (arith, e))
        (after_spin-WaitAccounts deadline r.now w (flagged r.turns) (spin deadline r.now r.turns)
          (spin-SpinAccounts deadline r.now r.turns))

  -- A round before the deadline, with the flag clear.
  pub goes_on :
      (p : Precision) (chunk : ℕ) (w : Waiter) (r : Round) (rounds : List Round)
      → leb deadline r.now ≡ false
      → r.flag ≡ false
      → wait_until us sort rank deadline p chunk w (r ∷ rounds)
        ≡ sleep_or_spin us sort rank deadline w r
            (λ w'. wait_until us sort rank deadline p chunk w' rounds)
            (sleep_for us w p chunk (deadline - r.now))
  unfolding wait_until
  goes_on p chunk w r rounds early clear = rw (early, clear)

  pub wait_until-WaitAccounts :
      (p : Precision) (chunk : ℕ) (w : Waiter) (rounds : List Round)
      → WaitAccounts deadline (asked_in rounds) (wait_until us sort rank deadline p chunk w rounds)
  unfolding wait_until
  wait_until-WaitAccounts p chunk w [] = _
  wait_until-WaitAccounts p chunk w (r ∷ rounds) = elim (Bool-cases (leb deadline r.now)) [
    | inl late ↦ rw late (leb→le deadline r.now late)
    | inr early ↦ elim (Bool-cases r.flag) [
      | inl set ↦ rw (early, set) refl
      | inr clear ↦
          let rest =
            round-WaitAccounts w r (sleep_for us w p chunk (deadline - r.now)) (asked_in rounds)
              (λ w'. wait_until us sort rank deadline p chunk w' rounds)
              (λ w'. wait_until-WaitAccounts p chunk w' rounds) in
          subst (WaitAccounts deadline (asked r || asked_in rounds))
            (sym (goes_on p chunk w r rounds early clear)) rest
    ]
  ]
