-- ===== src/Waiter/Returns.antt =====
-- A wait of src/scheduler/PreciseWaiter.cpp returns, and keeps the model of lateness in order.
use infinity_clicker.Base.{
  ℕ, ◌+◌, ◌-◌, ◌<◌, ◌≤◌, ◌≡◌, refl, arith, subst, sym, List, [], ◌∷◌, ◌⊎◌, inl, inr, Bool,
  Bool-cases, ltb, leb, none, some, Option, ℤ, sub_ℕ, length,
}
use infinity_clicker.Profiles.Keys.{Precision}
use infinity_clicker.Waiter.{Waiter, record_oversleep}
use infinity_clicker.Waiter.Sorted.{IsSort}
use infinity_clicker.Waiter.Model.{IsRank, IsModel, record_oversleep-IsModel}
use infinity_clicker.Waiter.Loop.{
  WaitResult, reached, interrupted, Round, timer_sleep, spin, Ended, sleep_for, after_spin,
  after_sleep, slept, sleep_or_spin, wait_until,
}
use infinity_clicker.Waiter.Waits.{
  asked_in, Accounts, WaitAccounts, wait_until-WaitAccounts, goes_on,
}

-- In a spin the clock comes to the deadline.
abbrev pub GetsThere : ℕ → List (Bool × ℕ) → Type 0
GetsThere deadline [] = ⊥
GetsThere deadline ((flag, t) ∷ turns) = (deadline ≤ t) ⊎ GetsThere deadline turns

-- The clock moves on: a sleep takes a tick at least, a round is not before the end of the sleep of
-- the round before, which ended at `t` or later, and a spin goes on until the deadline.
abbrev pub MovesOn : ℕ → ℕ → List Round → Type 0
MovesOn deadline t [] = Unit
MovesOn deadline t (r ∷ rounds) =
    (t ≤ r.now) × (r.now < r.woke) × GetsThere deadline r.turns × MovesOn deadline r.woke rounds

-- The wait has ended, with an order in its model.
abbrev pub HasEnded : Option Ended → Type 0
HasEnded o = (e : Ended) × (o ≡ some e) × IsModel e.waiter

spin_ends :
    (deadline t : ℕ) (turns : List (Bool × ℕ))
    → (deadline ≤ t) ⊎ GetsThere deadline turns
    → (result : WaitResult) × (at : ℕ) × (spin deadline t turns ≡ some (result, at))
unfolding spin
spin_ends deadline t [] (inl h) = (reached, t, ground arith)
spin_ends deadline t [] (inr h) = absurd h
spin_ends deadline t ((flag, next) ∷ turns) (inl h) = (reached, t, ground arith)
spin_ends deadline t ((flag, next) ∷ turns) (inr h) = elim (Bool-cases (ltb t deadline)) [
  | inr late ↦ (reached, t, rw late)
  | inl early ↦ elim (Bool-cases flag) [
    | inl set ↦ (interrupted, t, rw (early, set))
    | inr clear ↦
        let (result, at, e) = spin_ends deadline next turns h in (result, at, rw (early, clear) e)
  ]
]

after_spin-HasEnded :
    (w : Waiter) (now : ℕ) (result : WaitResult) (at : ℕ) {o : Option (WaitResult × ℕ)}
    → o ≡ some (result, at)
    → IsModel w
    → HasEnded (after_spin w now o)
after_spin-HasEnded w now result at e h = (
  record { result = result; at = at; waiter = record w { spin_ticks = w.spin_ticks + (at - now) } },
  rw e,
  kept,
)
  where
    kept : IsModel (record w { spin_ticks = w.spin_ticks + (at - now) })
    kept = ground arith

module _ (us : ℕ → ℕ) (sort : List ℤ → List ℤ) (rank : ℕ → ℕ → ℕ) (deadline : ℕ)
    (sorts : IsSort sort) (ranks : IsRank rank) where
  slept-HasEnded :
      (w : Waiter) (r : Round) (length : ℕ) (go_on : Waiter → Option Ended)
      → IsModel w
      → ((w' : Waiter) → IsModel w' → HasEnded (go_on w'))
      → HasEnded (slept us sort rank w r length go_on)
  slept-HasEnded w r length go_on h later =
      let w' = after_sleep w r.now r.woke in
      let kept : IsModel w' = ground arith in
      elim (Bool-cases (timer_sleep r.timer_set r.event_first)) [
        | inl timed ↦
            let t = record_oversleep sort rank w' (sub_ℕ r.woke (r.now + length)) in
            rw timed (
              later t (
                record_oversleep-IsModel sort rank sorts w' (sub_ℕ r.woke (r.now + length)) ranks
                  kept))
        | inr stopped ↦
            rw stopped (record { result = interrupted; at = r.woke; waiter = w' }, refl, kept)
      ]

  round-HasEnded :
      (w : Waiter) (r : Round) (sleeps : Option ℕ) (go_on : Waiter → Option Ended)
      → IsModel w
      → GetsThere deadline r.turns
      → ((w' : Waiter) → IsModel w' → HasEnded (go_on w'))
      → HasEnded (sleep_or_spin us sort rank deadline w r go_on sleeps)
  round-HasEnded w r (some length) go_on h there later = slept-HasEnded w r length go_on h later
  round-HasEnded w r none go_on h there later =
      let (result, at, e) = spin_ends deadline r.now r.turns (inr there) in
      after_spin-HasEnded w r.now result at e h

  wait_until-HasEnded :
      (p : Precision) (chunk : ℕ) (rounds : List Round) (w : Waiter) (t : ℕ)
      → IsModel w
      → MovesOn deadline t rounds
      → 0 < length rounds
      → deadline < t + length rounds
      → HasEnded (wait_until us sort rank deadline p chunk w rounds)
  unfolding wait_until
  wait_until-HasEnded p chunk [] w t h moves some_left enough = absurd (omega arith)
  wait_until-HasEnded p chunk (r ∷ rounds) w t h moves some_left enough =
      elim (Bool-cases (leb deadline r.now)) [
        | inl late ↦ rw late (record { result = reached; at = r.now; waiter = w }, refl, h)
        | inr early ↦ elim (Bool-cases r.flag) [
          | inl set ↦
              rw (early, set) (record { result = interrupted; at = r.now; waiter = w }, refl, h)
          | inr clear ↦
              subst HasEnded (sym (goes_on us sort rank deadline p chunk w r rounds early clear)) (
                round-HasEnded w r (sleep_for us w p chunk (deadline - r.now))
                  (λ w'. wait_until us sort rank deadline p chunk w' rounds) h moves.2
                  (λ w' h'.
                    wait_until-HasEnded p chunk rounds w' r.woke h' moves.3 (ground arith)
                      (ground arith)))
        ]
      ]

  -- The clock moves on with each sleep and each spin, there are as many rounds as ticks to the deadline,
  -- and the model of lateness is in order. Then the wait ends, by itself at the deadline or after
  -- it, or interrupted, and then by the flag or the event; and the model is in order.
  pub wait_until-returns :
      (p : Precision) (chunk : ℕ) (rounds : List Round) (w : Waiter) (t : ℕ)
      → IsModel w
      → MovesOn deadline t rounds
      → 0 < length rounds
      → deadline < t + length rounds
      → (e : Ended) × (wait_until us sort rank deadline p chunk w rounds ≡ some e)
        × Accounts deadline (asked_in rounds) e.result e.at
        × IsModel e.waiter
  wait_until-returns p chunk rounds w t h moves some_left enough =
      let (e, ends, kept) = wait_until-HasEnded p chunk rounds w t h moves some_left enough in
      (
        e,
        ends,
        subst (WaitAccounts deadline (asked_in rounds)) ends
            (wait_until-WaitAccounts us sort rank deadline p chunk w rounds),
        kept,
      )
