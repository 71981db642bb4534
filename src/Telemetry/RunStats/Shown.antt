-- ===== src/Telemetry/RunStats/Shown.antt =====
-- What `fill` of src/telemetry/Stats.cpp reads from the ring of slots.
use infinity_clicker.Base.{
  ℕ, zero, suc, ◌+◌, ◌-◌, ◌%◌, ◌^◌, ◌<◌, ◌≤◌, ◌≡◌, refl, arith, ap, sym, ◌∙◌, List, [], ◌∷◌,
}
use infinity_clicker.Clock.{FloatArith}
use infinity_clicker.Telemetry.RunStats.{RunStats}
use infinity_clicker.Telemetry.RunStats.Slots.{
  Report, shot, volley, sent, skipped, last_time, count_between, count_between-le-total,
  count_between_split, total, edge, edge_mono, Holds, slot_actions, Ring, ring_of,
}
use infinity_clicker.Telemetry.RunStats.Held.{stats_after, IsTimely, after-IsAt}
use infinity_clicker.Telemetry.RunStats.Fill.{min, sum_back, sum_last, history_slot}

count_between_empty : (t : ℕ) (past : List Report) → count_between t t past ≡ 0
unfolding count_between
count_between_empty t [] = refl
count_between_empty t (shot fire d ∷ past) = ground (arith, count_between_empty t past)
count_between_empty t (volley now n ∷ past) = ground (arith, count_between_empty t past)
count_between_empty t (sent d ∷ past) = count_between_empty t past
count_between_empty t (skipped n ∷ past) = count_between_empty t past

module _ (t0 width : ℕ) (past : List Report) (k : ℕ) (r : Ring) (h : Holds t0 width past k r)
    (few : total past < 2 ^ 32) where
  -- The loop of `sumLast` adds the slots back from the last complete one.
  sum_back-count :
      (i : ℕ)
      → i ≤ min k 100
      → sum_back r.slots r.head i ≡ count_between (edge t0 width (k - i)) (edge t0 width k) past
  unfolding sum_back
  sum_back-count zero le =
      let same : k - 0 ≡ k = omega arith in
      rw same (sym (count_between_empty (edge t0 width k) past))
  sum_back-count (suc i) le =
      let ih = sum_back-count i (ground arith) in
      let place : (r.head + 100 - suc i) % 100 ≡ (k - suc i) % 100 = ground (arith, h.head_is) in
      let low : suc (k - suc i) ≡ k - i = ground arith in
      let slot : r.slots ((k - suc i) % 100) ≡ slot_actions t0 width past (k - suc i) =
        h.slots_are (k - suc i) (ground arith) (ground arith) in
      let next : edge t0 width (suc (k - suc i)) ≡ edge t0 width (k - i) = ap (edge t0 width) low in
      let split =
        count_between_split (edge t0 width (k - suc i)) (edge t0 width (suc (k - suc i)))
          (edge t0 width k) past (omega arith)
          (edge_mono t0 width (suc (k - suc i)) k (ground arith)) in
      rw (ih, place, slot, ← next)
        (omega (
          arith,
          split,
          few,
          count_between-le-total (edge t0 width (k - suc i)) (edge t0 width k) past,
        ))

-- The slots that `fill` reads, when `k` are complete, are the last 100 of them at most.
abbrev pub ShowsSlots : (F : FloatArith) → ℕ → ℕ → List Report → ℕ → RunStats F → Type 0
ShowsSlots F t0 width past k s =
    (s.slot_filled ≡ min k 100)
    × ((i : ℕ)
        → i < min k 100
        → history_slot F s i ≡ slot_actions t0 width past (k - min k 100 + i))
    × ((n : ℕ)
        → n ≤ 100
        → sum_last F s n
          ≡ (count_between (edge t0 width (k - min n k)) (edge t0 width k) past, min n k))

module _ (F : FloatArith) (t0 width : ℕ) (past : List Report) (k : ℕ) (s : RunStats F) where
  Holds-ShowsSlots :
      Holds t0 width past k (ring_of F s) → total past < 2 ^ 32 → ShowsSlots F t0 width past k s
  unfolding history_slot sum_last
  Holds-ShowsSlots h few =
      let filled : s.slot_filled ≡ min k 100 = ground (arith, h.filled_is) in
      (filled, shown filled, summed filled)
    where
      shown :
          s.slot_filled ≡ min k 100
          → (i : ℕ) → i < min k 100
          → history_slot F s i ≡ slot_actions t0 width past (k - min k 100 + i)
      shown filled i lt =
          let place : (s.slot_head + i + 100 - s.slot_filled) % 100 ≡ (k - min k 100 + i) % 100 =
            ground (arith, h.head_is, filled) in
          ap s.slots place ∙ h.slots_are (k - min k 100 + i) (ground arith) (ground arith)

      summed :
          s.slot_filled ≡ min k 100
          → (n : ℕ) → n ≤ 100
          → sum_last F s n
            ≡ (count_between (edge t0 width (k - min n k)) (edge t0 width k) past, min n k)
      summed filled n le =
          let same : min n s.slot_filled ≡ min n k = ground (arith, filled) in
          rw same (
            ap (λ c. (c, min n k))
              (sum_back-count t0 width past k (ring_of F s) h few (min n k) (ground arith)))

module _ (F : FloatArith) (freq : ℕ) (ns_of : F.Double → ℕ) (t0 width : ℕ) (target : F.Double) where
  -- The actions of a run come in the order of their times, no pause is longer than 100 slots, a slot
  -- has a length, and there are fewer than 2^32 actions. Then there is the number `k` of slots that
  -- end at or before the last action; the history shows the last 100 of them at most, entry by
  -- entry the number of actions in the slot; and the rolling sum over `n` slots is the number of
  -- actions in the last `n` of them, or in all if there are fewer.
  pub after-ShowsSlots :
      (past : List Report)
      → 0 < width
      → IsTimely width t0 past
      → total past < 2 ^ 32
      → (k : ℕ) × (edge t0 width k ≤ last_time t0 past)
        × (last_time t0 past < edge t0 width k + width)
        × ShowsSlots F t0 width past k (stats_after F freq ns_of width t0 target past)
  after-ShowsSlots past pos h few =
      let held = after-IsAt F freq ns_of t0 width target past pos h few in
      (
        held.0,
        held.1.1,
        held.1.2,
        Holds-ShowsSlots F t0 width past held.0 (stats_after F freq ns_of width t0 target past)
            held.1.0 few,
      )
