-- ===== src/Modes/Timeline.antt =====
-- The absolute timeline of src/scheduler/Modes.h. The program computes with the period as a
-- `double`; what it asks of floating point is the parameter `PeriodArith`.
use infinity_clicker.Base.{ℕ, zero, suc, ◌+◌, ◌-◌, ◌≤◌, Bool, ◌||◌, if◌then◌else◌, ltb, ◌≡◌}
pub mod Late

-- The floating-point arithmetic on periods, in QPC ticks.
pub record PeriodArith : Type 1 where
  pub Period : Type 0
  -- `period <= 0`
  pub non_positive : Period → Bool
  -- `floor(double(idx) * period + 0.5)`
  pub offset : Period → ℕ → ℕ
  -- `floor(double(ticks) / period)`
  pub index_at : Period → ℕ → ℕ

-- What rounding promises for a positive period: products and quotients are monotone, and the two
-- operations agree up to the rounding of an offset.
pub record IsRounding (pa : PeriodArith) (p : pa.Period) : Type 0 where
  pub offset_zero : pa.offset p 0 ≡ 0
  pub offset_mono : (i j : ℕ) → i ≤ j → pa.offset p i ≤ pa.offset p j
  pub index-offset : (k t : ℕ) → pa.offset p (suc k) ≤ t → k ≤ pa.index_at p t
  pub offset-index : (t : ℕ) → t ≤ pa.offset p (suc (pa.index_at p t))

module _ (pa : PeriodArith) where
  open pa use {Period, non_positive, offset, index_at}

  pub record Timeline : Type 0 where
    pub t0 : ℕ
    pub period : Period
    pub k : ℕ

  unfoldable pub anchor : ℕ → Period → Timeline
  anchor start p = record { t0 = start; period = p; k = 0 }

  abbrev pub slot : Timeline → ℕ → ℕ
  slot tl idx = tl.t0 + offset tl.period idx

  abbrev pub next : Timeline → ℕ
  next tl = slot tl tl.k

  -- `while (idx > k && slot(idx) > now) --idx;`
  unfoldable pub guard_rounding : Timeline → ℕ → ℕ → ℕ
  guard_rounding tl now zero = zero
  guard_rounding tl now (suc i) =
      let lower = guard_rounding tl now i in
      if ltb tl.k (suc i) then (if ltb now (slot tl (suc i)) then lower else suc i) else suc i

  -- The new timeline, and the number of slots that were skipped.
  unfoldable pub skip_late : Timeline → ℕ → Timeline × ℕ
  unfolding guard_rounding
  skip_late tl now =
      let idx = guard_rounding tl now (index_at tl.period (now - tl.t0)) in
      if non_positive tl.period || ltb now (slot tl (suc tl.k))
      then (tl, 0)
      else (record tl { k = idx }, if ltb tl.k idx then idx - tl.k else 0)

  unfoldable pub change_period : Timeline → Period → Timeline
  change_period tl p = record { t0 = next tl; period = p; k = 0 }
