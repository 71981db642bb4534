-- ===== src/Modes/Timeline/Late.antt =====
-- `skipLate` and `changePeriod` of src/scheduler/Modes.h keep the grid.
use infinity_clicker.Base.{ℕ, zero, suc, ◌+◌, ◌-◌, ◌≤◌, false, ◌≡◌, arith, subst}
use infinity_clicker.Modes.Timeline.{
  PeriodArith, IsRounding, Timeline, slot, next, guard_rounding, skip_late, change_period,
}

module _ (pa : PeriodArith) where
  open pa use {non_positive, offset, index_at}

  -- Where the loop of `skipLate` stops, from `i` on.
  abbrev Lands : Timeline pa → ℕ → ℕ → Type 0
  Lands tl now i = (tl.k ≤ i) × (slot pa tl i ≤ now) × (now ≤ slot pa tl (suc i))

  guard_rounding-Lands :
      (tl : Timeline pa) (now i : ℕ)
      → slot pa tl tl.k ≤ now
      → tl.k ≤ i
      → now ≤ slot pa tl (suc i)
      → Lands tl now (guard_rounding pa tl now i)
  unfolding guard_rounding
  guard_rounding-Lands tl now zero h k n =
      let e : tl.k ≡ 0 = omega arith in (k, subst (λ j. slot pa tl j ≤ now) e h, n)
  guard_rounding-Lands tl now (suc i) h k n = ground (arith, guard_rounding-Lands tl now i h)

  -- For a positive period under the rounding laws, at a time no earlier than the next slot:
  -- `skipLate` keeps the origin and the period of the grid, moves the index forward by exactly the
  -- number of slots that it reports, and lands on a slot that is due, with no later slot due
  -- strictly before `now`.
  pub skip_late-lands :
      (tl : Timeline pa) (now : ℕ)
      → IsRounding pa tl.period
      → non_positive tl.period ≡ false
      → next pa tl ≤ now
      → let (tl', skipped) = skip_late pa tl now in
        (tl'.t0 ≡ tl.t0)
        × (tl'.period ≡ tl.period)
        × (tl'.k ≡ tl.k + skipped)
        × (next pa tl' ≤ now)
        × (now ≤ slot pa tl (suc tl'.k))
  unfolding skip_late
  skip_late-lands tl now r pos due =
      let idx = index_at tl.period (now - tl.t0) in
      ground (
        arith,
        guard_rounding-Lands tl now idx due,
        r.index-offset tl.k (now - tl.t0),
        r.offset-index (now - tl.t0),
      )

  -- A rate change under the rounding laws does not move the next action: it is the first slot of
  -- the new timeline, whose later slots are in order from there on.
  pub next-change_period :
      (tl : Timeline pa) (p : pa.Period) (i j : ℕ)
      → IsRounding pa p
      → i ≤ j
      → (next pa (change_period pa tl p) ≡ next pa tl)
        × (next pa tl ≤ slot pa (change_period pa tl p) i)
        × (slot pa (change_period pa tl p) i ≤ slot pa (change_period pa tl p) j)
  unfolding change_period
  next-change_period tl p i j r h =
      (omega (arith, r.offset_zero), omega arith, omega (arith, r.offset_mono i j h))
