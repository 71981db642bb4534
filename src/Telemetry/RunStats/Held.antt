-- ===== src/Telemetry/RunStats/Held.antt =====
-- The counters of src/telemetry/Stats.cpp over a run: the ring holds the actions of the slots.
use infinity_clicker.Base.{
  ℕ, ◌+◌, ◌*◌, ◌^◌, ◌<◌, ◌≤◌, ◌≡◌, refl, arith, ap, sym, ◌∙◌, ℤ, sub_ℕ, List, [], ◌∷◌,
}
use infinity_clicker.Clock.{FloatArith, of_nat}
use infinity_clicker.Telemetry.RunStats.{
  RunStats, begin_with, advance, count_actions, note_late, on_action, on_actions, on_send_duration,
  on_missed,
}
use infinity_clicker.Telemetry.RunStats.Slots.{
  Report, shot, volley, sent, skipped, last_time, count_between, total, inside, ring_of,
  ring_of-note_interval, edge, edge_add, Holds, Reaches, roll-Reaches, count_ring, count_ring-Holds,
}

module _ (F : FloatArith) (freq : ℕ) (ns_of : F.Double → ℕ) where
  -- A report reaches the counters.
  unfoldable pub report : RunStats F → Report → RunStats F
  unfolding on_action on_actions on_send_duration on_missed
  report s (shot fire deadline) = on_action F freq ns_of s fire deadline
  report s (volley now n) = on_actions F freq ns_of s now n
  report s (sent ticks) = on_send_duration F freq ns_of s ticks
  report s (skipped n) = on_missed F s n

  -- The counters of a run that begins at `t0`, after its reports, the latest first.
  unfoldable pub stats_after : ℕ → ℕ → F.Double → List Report → RunStats F
  unfolding report begin_with
  stats_after width t0 target [] = begin_with F width t0 target
  stats_after width t0 target (d ∷ past) = report (stats_after width t0 target past) d

-- An action is at the time of the last one or later, at most 100 slots on.
abbrev pub IsNext : ℕ → ℕ → ℕ → Type 0
IsNext width before t = (before ≤ t) × (t ≤ before + 100 * width)

-- The actions come in the order of their times, and none after a pause of more than 100 slots.
abbrev pub IsTimely : ℕ → ℕ → List Report → Type 0
IsTimely width t0 [] = Unit
IsTimely width t0 (shot fire deadline ∷ past) =
    IsNext width (last_time t0 past) fire × IsTimely width t0 past
IsTimely width t0 (volley now n ∷ past) =
    IsNext width (last_time t0 past) now × IsTimely width t0 past
IsTimely width t0 (sent ticks ∷ past) = IsTimely width t0 past
IsTimely width t0 (skipped n ∷ past) = IsTimely width t0 past

module _ (F : FloatArith) (freq : ℕ) (ns_of : F.Double → ℕ) (t0 width : ℕ) (target : F.Double) where
  abbrev after : List Report → RunStats F
  after past = stats_after F freq ns_of width t0 target past

  -- `k` slots are complete, and the ring holds them.
  abbrev pub IsAt : List Report → ℕ → RunStats F → Type 0
  IsAt past k s =
      Holds t0 width past k (ring_of F s)
      × (edge t0 width k ≤ last_time t0 past)
      × (last_time t0 past < edge t0 width k + width)

  -- `advance` reaches the slot of an action that is next.
  advance-Reaches :
      (past : List Report) (k : ℕ) (s : RunStats F) (now : ℕ)
      → IsAt past k s
      → IsNext width (last_time t0 past) now
      → Reaches t0 width F past k now (advance F s now)
  unfolding advance
  advance-Reaches past k s now h near =
      roll-Reaches t0 width F 110 (k + 110) past k s now h.0 refl
        (omega (arith, edge_add t0 width k 110, h.2))

  -- The counts of an action at the slot that `advance` reached.
  counted-IsAt :
      (past : List Report) (k : ℕ) (s : RunStats F) (d : Report) (t n : ℕ)
      → ((lo hi : ℕ) → count_between lo hi (d ∷ past) ≡ inside lo hi t n + count_between lo hi past)
      → IsAt past k s
      → IsNext width (last_time t0 past) t
      → n + total past < 2 ^ 32
      → last_time t0 (d ∷ past) ≡ t
      → (s' : RunStats F) → ring_of F s' ≡ count_ring (ring_of F (advance F s t)) n
      → (k' : ℕ) × IsAt (d ∷ past) k' s'
  counted-IsAt past k s d t n reads h near few time s' same =
      let r = advance-Reaches past k s t h near in
      let from : edge t0 width r.0 ≤ t = r.3 (omega (arith, h.1)) in
      (
        r.0,
        (
          rw same (
              count_ring-Holds t0 width past r.0 (ring_of F (advance F s t)) d t n reads r.1 from
                r.2 few),
          rw time from,
          rw time r.2,
        ),
      )

  start-Holds : Holds t0 width [] 0 (ring_of F (begin_with F width t0 target))
  unfolding begin_with count_between
  start-Holds = record {
    ticks_is = refl;
    ends_is = refl;
    head_is = omega arith;
    filled_is = refl;
    count_is = refl;
    slots_are = λ j a b. absurd (omega arith);
    none_later = λ lo hi p. refl;
  }

  ring_of-on_action :
      (s : RunStats F) (fire : ℕ) (deadline : ℤ)
      → ring_of F (on_action F freq ns_of s fire deadline)
        ≡ count_ring (ring_of F (advance F s fire)) 1
  unfolding on_action count_actions note_late
  ring_of-on_action s fire deadline =
      let t = advance F s fire in
      ap (λ r. count_ring r 1) (ring_of-note_interval F t (F.of_int (sub_ℕ fire t.last_fire)))

  ring_of-on_actions :
      (s : RunStats F) (now n : ℕ)
      → ring_of F (on_actions F freq ns_of s now n) ≡ count_ring (ring_of F (advance F s now)) n
  unfolding on_actions count_actions
  ring_of-on_actions s now n =
      let t = advance F s now in
      ap (λ r. count_ring r n)
        (ring_of-note_interval F t (F.div (F.of_int (sub_ℕ now t.last_fire)) (of_nat F n)))

  -- A report without an action leaves the ring and its meaning alone.
  quiet-IsAt :
      (past : List Report) (k : ℕ) (s s' : RunStats F) (d : Report)
      → ((lo hi : ℕ) → count_between lo hi (d ∷ past) ≡ count_between lo hi past)
      → ring_of F s' ≡ ring_of F s
      → last_time t0 (d ∷ past) ≡ last_time t0 past
      → IsAt past k s
      → IsAt (d ∷ past) k s'
  quiet-IsAt past k s s' d reads same time h = (
    rw same (record {
      ticks_is = h.0.ticks_is;
      ends_is = h.0.ends_is;
      head_is = h.0.head_is;
      filled_is = h.0.filled_is;
      count_is = h.0.count_is ∙ sym (reads _ _);
      slots_are = λ j a b. h.0.slots_are j a b ∙ sym (reads _ _);
      none_later = λ lo hi p. reads lo hi ∙ h.0.none_later lo hi p;
    }),
    rw time h.1,
    rw time h.2,
  )

  -- After every run of reports in time, the ring holds the slots up to the last action.
  pub after-IsAt :
      (past : List Report)
      → 0 < width
      → IsTimely width t0 past
      → total past < 2 ^ 32
      → (k : ℕ) × IsAt past k (after past)
  unfolding stats_after report on_send_duration on_missed count_between
  after-IsAt [] pos h few = (0, (start-Holds, omega arith, omega arith))
  after-IsAt (shot fire deadline ∷ past) pos h few =
      let ih = after-IsAt past pos h.1 (omega (arith, few)) in
      counted-IsAt past ih.0 (after past) (shot fire deadline) fire 1 (λ lo hi. refl) ih.1 h.0 few
        refl (report F freq ns_of (after past) (shot fire deadline))
        (ring_of-on_action (after past) fire deadline)
  after-IsAt (volley now n ∷ past) pos h few =
      let ih = after-IsAt past pos h.1 (omega (arith, few)) in
      counted-IsAt past ih.0 (after past) (volley now n) now n (λ lo hi. refl) ih.1 h.0 few refl
        (report F freq ns_of (after past) (volley now n)) (ring_of-on_actions (after past) now n)
  after-IsAt (sent ticks ∷ past) pos h few =
      let ih = after-IsAt past pos h few in
      (
        ih.0,
        quiet-IsAt past ih.0 (after past) (after (sent ticks ∷ past)) (sent ticks) (λ lo hi. refl)
            refl refl ih.1,
      )
  after-IsAt (skipped n ∷ past) pos h few =
      let ih = after-IsAt past pos h few in
      (
        ih.0,
        quiet-IsAt past ih.0 (after past) (after (skipped n ∷ past)) (skipped n) (λ lo hi. refl)
            refl refl ih.1,
      )
