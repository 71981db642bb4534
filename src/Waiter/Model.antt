-- ===== src/Waiter/Model.antt =====
-- The model of lateness in src/scheduler/PreciseWaiter.cpp: its quantiles are in order, and a margin
-- of ULTRA covers the samples.
use infinity_clicker.Base.{
  ℕ, ◌-◌, ◌<◌, ◌≤◌, ◌≡◌, arith, subst, ◌∙◌, false, List, inl, inr, Bool-cases, length, ltb, leb,
  ◌||◌, none, ℤ, pos, negsuc, pos_part, ◌≤ℤ◌,
}
use infinity_clicker.Profiles.Keys.{ultra}
use infinity_clicker.Waiter.{
  Waiter, first_samples, entry, smaller, recompute_model, store_sample, record_oversleep,
  margin_ticks, adaptive_margin,
}
use infinity_clicker.Waiter.Sorted.{
  IsSort, entry_mono, IsIn-le_last, length-first_samples, first_samples-IsIn,
}

-- A greater quantile has the same index or a greater one.
abbrev pub IsRank : (ℕ → ℕ → ℕ) → Type 0
IsRank rank = (n : ℕ) → (rank 50 n ≤ rank 75 n) × (rank 75 n ≤ rank 99 n)

-- The quantiles are in order, and the ring is within its bounds.
pub record IsModel (w : Waiter) : Type 0 where
  pub head_in : w.head < 256
  pub count_in : w.count ≤ 256
  pub p75_above : w.p50 ≤ w.p75
  pub p99_above : w.p75 ≤ w.p99
  pub max_above : w.p99 ≤ w.max

pos_part_mono : (a b : ℤ) → a ≤ℤ b → pos_part a ≤ pos_part b
pos_part_mono (pos a) (pos b) h = omega arith
pos_part_mono (pos a) (negsuc b) h = omega arith
pos_part_mono (negsuc a) (pos b) h = omega arith
pos_part_mono (negsuc a) (negsuc b) h = omega arith

le_pos_part : (a : ℤ) → a ≤ℤ pos (pos_part a)
le_pos_part (pos a) = omega arith
le_pos_part (negsuc a) = omega arith

module _ (sort : List ℤ → List ℤ) (rank : ℕ → ℕ → ℕ) (sorts : IsSort sort) where
  abbrev sorted : Waiter → List ℤ
  sorted w = sort (first_samples w.samples w.count)

  length-sorted : (w : Waiter) → length (sorted w) ≡ w.count
  length-sorted w = sorts.same_length _ ∙ length-first_samples w.samples w.count

  sorted_mono :
      (w : Waiter) (i j : ℕ)
      → i ≤ j
      → j < w.count
      → pos_part (entry (sorted w) i) ≤ pos_part (entry (sorted w) j)
  sorted_mono w i j le lt =
      pos_part_mono (entry (sorted w) i) (entry (sorted w) j)
        (entry_mono (sorted w) i j (sorts.ascending _) le (omega (arith, length-sorted w)))

  recompute_model-IsModel :
      (w : Waiter) → IsRank rank → IsModel w → IsModel (recompute_model sort rank w)
  unfolding recompute_model
  recompute_model-IsModel w ranks h = elim (Bool-cases (ltb w.count 8)) [
    | inl few ↦ rw few (record {
      head_in = h.head_in;
      count_in = h.count_in;
      p75_above = h.p75_above;
      p99_above = h.p99_above;
      max_above = h.max_above;
    })
    | inr enough ↦
        let last = w.count - 1 in
        let order = ranks last in
        rw enough (record {
          head_in = h.head_in;
          count_in = h.count_in;
          p75_above =
              sorted_mono w (smaller last (rank 50 last)) (smaller last (rank 75 last))
                (ground (arith, order.0)) (ground arith);
          p99_above =
              sorted_mono w (smaller last (rank 75 last)) (smaller last (rank 99 last))
                (ground (arith, order.1)) (ground arith);
          max_above =
              sorted_mono w (smaller last (rank 99 last)) last (ground arith) (ground arith);
        })
  ]

  store_sample-IsModel :
      (w : Waiter) (late : ℤ) → IsModel w → IsModel (store_sample sort rank w late)
  unfolding store_sample
  store_sample-IsModel w late h = ground arith

  pub record_oversleep-IsModel :
      (w : Waiter) (late : ℤ)
      → IsRank rank
      → IsModel w
      → IsModel (record_oversleep sort rank w late)
  unfolding record_oversleep
  record_oversleep-IsModel w late ranks h =
      let t = store_sample sort rank w late in
      let kept = store_sample-IsModel w late h in
      elim (Bool-cases (leb 32 t.since_model || ltb t.count 32)) [
        | inl e ↦ rw e (recompute_model-IsModel t ranks kept)
        | inr e ↦ rw e kept
      ]

  -- With 8 samples or more, no sample is greater than the new maximum.
  recompute_model-covers :
      (w : Waiter) (i : ℕ)
      → 8 ≤ w.count
      → i < w.count
      → w.samples i ≤ℤ pos (recompute_model sort rank w).max
  unfolding recompute_model
  recompute_model-covers w i enough lt =
      let not_few : ltb w.count 8 ≡ false = ground arith in
      let held = sorts.kept _ _ (first_samples-IsIn w.samples w.count i lt) in
      let low = IsIn-le_last (sorted w) (w.samples i) (sorts.ascending _) held in
      let last : length (sorted w) - 1 ≡ w.count - 1 = omega (arith, length-sorted w) in
      rw not_few (
        omega (
          arith,
          subst (λ k. w.samples i ≤ℤ entry (sorted w) k) last low,
          le_pos_part (entry (sorted w) (w.count - 1)),
        ))

  fixed_margin-recompute_model :
      (w : Waiter) → (recompute_model sort rank w).fixed_margin ≡ w.fixed_margin
  unfolding recompute_model
  fixed_margin-recompute_model w = elim (Bool-cases (ltb w.count 8)) [ inl e ↦ rw e | inr e ↦ rw e ]

  -- The margin of ULTRA, right after the model of 8 samples or more has been computed and with no
  -- margin fixed, is at least each sample that is at most 3000 microseconds.
  pub margin_ticks-covers :
      (us : ℕ → ℕ) (w : Waiter) (i : ℕ)
      → w.fixed_margin ≡ none
      → us 300 ≤ us 3000
      → 8 ≤ w.count
      → i < w.count
      → w.samples i ≤ℤ pos (us 3000)
      → w.samples i ≤ℤ pos (margin_ticks us (recompute_model sort rank w) ultra)
  unfolding margin_ticks adaptive_margin
  margin_ticks-covers us w i e bounds enough lt low =
      let high = recompute_model-covers w i enough lt in
      let same : (recompute_model sort rank w).fixed_margin ≡ none =
        fixed_margin-recompute_model w ∙ e in
      rw same (ground (arith, high))
