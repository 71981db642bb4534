-- ===== src/Telemetry/RunStats/Counted.antt =====
-- The totals of a run in src/telemetry/Stats.cpp.
use infinity_clicker.Base.{
  ℕ, zero, suc, ◌+◌, ◌-◌, ◌%◌, ◌^◌, ◌<◌, ◌≤◌, ◌≡◌, refl, arith, ap, ◌∙◌, List, [], ◌∷◌, inl, inr,
  Bool-cases, ltb, leb, ◌==◌, if◌then◌else◌, ℤ,
}
use infinity_clicker.Clock.{FloatArith}
use infinity_clicker.Telemetry.RunStats.{
  RunStats, at_least_zero, begin_with, push_slot, roll, advance, count_actions, note_interval,
  note_late, on_action, on_actions, on_send_duration, on_missed,
}
use infinity_clicker.Telemetry.Running.{cleared, add_value}
use infinity_clicker.Telemetry.RunStats.Slots.{
  Report, shot, volley, sent, skipped, last_time, total, pushed,
}
use infinity_clicker.Telemetry.RunStats.Held.{stats_after, report, IsTimely}

-- The calls that carry actions, and those of them with a deadline.
abbrev pub calls : List Report → ℕ
calls [] = 0
calls (shot fire deadline ∷ past) = suc (calls past)
calls (volley now n ∷ past) = suc (calls past)
calls (sent ticks ∷ past) = calls past
calls (skipped n ∷ past) = calls past

abbrev pub shots : List Report → ℕ
shots [] = 0
shots (shot fire deadline ∷ past) = suc (shots past)
shots (volley now n ∷ past) = shots past
shots (sent ticks ∷ past) = shots past
shots (skipped n ∷ past) = shots past

abbrev pub missed_total : List Report → ℕ
missed_total [] = 0
missed_total (shot fire deadline ∷ past) = missed_total past
missed_total (volley now n ∷ past) = missed_total past
missed_total (sent ticks ∷ past) = missed_total past
missed_total (skipped n ∷ past) = n + missed_total past

-- The time in `SendInput`: the sum and the greatest.
abbrev pub send_total : List Report → ℕ
send_total [] = 0
send_total (shot fire deadline ∷ past) = send_total past
send_total (volley now n ∷ past) = send_total past
send_total (sent ticks ∷ past) = at_least_zero ticks + send_total past
send_total (skipped n ∷ past) = send_total past

abbrev pub longest_send : List Report → ℕ
longest_send [] = 0
longest_send (shot fire deadline ∷ past) = longest_send past
longest_send (volley now n ∷ past) = longest_send past
longest_send (sent ticks ∷ past) =
    let t = at_least_zero ticks in if ltb (longest_send past) t then t else longest_send past
longest_send (skipped n ∷ past) = longest_send past

-- The fields that a slot does not touch.
record Totals : Type 0 where
  actions : ℕ
  missed : ℕ
  first_fire : ℕ
  last_fire : ℕ
  intervals : ℕ
  lates : ℕ
  send_max : ℕ
  send_accum : ℕ

module _ (F : FloatArith) where
  abbrev totals_of : RunStats F → Totals
  totals_of s = record {
    actions = s.actions;
    missed = s.missed;
    first_fire = s.first_fire;
    last_fire = s.last_fire;
    intervals = s.interval_run.n;
    lates = s.late_run.n;
    send_max = s.send_max;
    send_accum = s.send_accum;
  }

  totals_of-push_slot : (s : RunStats F) → totals_of (push_slot F s) ≡ totals_of s
  unfolding push_slot
  totals_of-push_slot s = elim (Bool-cases (((s.slots_done + 1) % 2 ^ 64) % 10 == 0)) [
    | inl e ↦ rw e
    | inr e ↦ rw e
  ]

  totals_of-roll :
      (left : ℕ) (s : RunStats F) (now : ℕ) → totals_of (roll F left s now) ≡ totals_of s
  unfolding roll
  totals_of-roll zero s now = elim (Bool-cases (leb s.slot_end now)) [
    | inl e ↦ rw e (totals_of-push_slot s)
    | inr e ↦ rw e
  ]
  totals_of-roll (suc left) s now = elim (Bool-cases (leb s.slot_end now)) [
    | inl e ↦ rw e (totals_of-roll left (pushed 0 0 F s) now ∙ totals_of-push_slot s)
    | inr e ↦ rw e
  ]

  totals_of-advance : (s : RunStats F) (now : ℕ) → totals_of (advance F s now) ≡ totals_of s
  unfolding advance
  totals_of-advance s now = totals_of-roll 110 s now

module _ (F : FloatArith) (t0 : ℕ) where
  -- The totals are those of the reports.
  pub record IsCounted (past : List Report) (s : RunStats F) : Type 0 where
    pub actions_are : s.actions ≡ total past % 2 ^ 64
    pub missed_are : s.missed ≡ missed_total past % 2 ^ 64
    pub intervals_are : s.interval_run.n ≡ (calls past - 1) % 2 ^ 64
    pub lates_are : s.late_run.n ≡ shots past % 2 ^ 64
    pub last_is : s.last_fire ≡ (if calls past == 0 then 0 else last_time t0 past)
    pub send_max_is : s.send_max ≡ longest_send past
    pub send_accum_is : s.send_accum ≡ send_total past

module _ (F : FloatArith) (t0 : ℕ) (after_zero : 0 < t0) where
  last_time-ge : (width : ℕ) (past : List Report) → IsTimely width t0 past → t0 ≤ last_time t0 past
  last_time-ge width [] h = omega arith
  last_time-ge width (shot fire d ∷ past) h = omega (arith, last_time-ge width past h.1)
  last_time-ge width (volley now n ∷ past) h = omega (arith, last_time-ge width past h.1)
  last_time-ge width (sent ticks ∷ past) h = last_time-ge width past h
  last_time-ge width (skipped n ∷ past) h = last_time-ge width past h

  -- The count of intervals after one more action.
  intervals_after :
      (past : List Report) (a : RunStats F) (iv : F.Double)
      → IsCounted F t0 past a
      → t0 ≤ last_time t0 past
      → (note_interval F a iv).interval_run.n ≡ calls past % 2 ^ 64
  unfolding note_interval add_value
  intervals_after past a iv h ge = elim (Bool-cases (a.last_fire == 0)) [
    | inl e ↦ rw e (ground (arith, h.last_is, h.intervals_are))
    | inr e ↦ rw e (ground (arith, h.last_is, h.intervals_are))
  ]

  -- An `advance` keeps the counts.
  advanced-IsCounted :
      (past : List Report) (s : RunStats F) (now : ℕ)
      → IsCounted F t0 past s
      → IsCounted F t0 past (advance F s now)
  advanced-IsCounted past s now h =
      let e = totals_of-advance F s now in
      record {
        actions_are = ap (λ (t : Totals). t.actions) e ∙ h.actions_are;
        missed_are = ap (λ (t : Totals). t.missed) e ∙ h.missed_are;
        intervals_are = ap (λ (t : Totals). t.intervals) e ∙ h.intervals_are;
        lates_are = ap (λ (t : Totals). t.lates) e ∙ h.lates_are;
        last_is = ap (λ (t : Totals). t.last_fire) e ∙ h.last_is;
        send_max_is = ap (λ (t : Totals). t.send_max) e ∙ h.send_max_is;
        send_accum_is = ap (λ (t : Totals). t.send_accum) e ∙ h.send_accum_is;
      }

  note_interval_rest :
      (a : RunStats F) (iv : F.Double)
      → record (totals_of F (note_interval F a iv)) { intervals = 0 }
        ≡ record (totals_of F a) { intervals = 0 }
  unfolding note_interval
  note_interval_rest a iv = elim (Bool-cases (a.last_fire == 0)) [ inl e ↦ rw e | inr e ↦ rw e ]

  module _ (past : List Report) (a : RunStats F) (iv : F.Double) (h : IsCounted F t0 past a)
      (ge : t0 ≤ last_time t0 past) where
    volley-IsCounted :
        (now n : ℕ)
        → IsCounted F t0 (volley now n ∷ past) (count_actions F (note_interval F a iv) now n)
    unfolding count_actions
    volley-IsCounted now n =
        let e = note_interval_rest a iv in
        record {
          actions_are = ground (arith, ap (λ (t : Totals). t.actions) e, h.actions_are);
          missed_are = ap (λ (t : Totals). t.missed) e ∙ h.missed_are;
          intervals_are = omega (arith, intervals_after past a iv h ge);
          lates_are = ap (λ (t : Totals). t.lates) e ∙ h.lates_are;
          last_is = ground arith;
          send_max_is = ap (λ (t : Totals). t.send_max) e ∙ h.send_max_is;
          send_accum_is = ap (λ (t : Totals). t.send_accum) e ∙ h.send_accum_is;
        }

    shot-IsCounted :
        (fire : ℕ) (deadline : ℤ) (late ns : ℕ)
        → IsCounted F t0
            (shot fire deadline ∷ past)
            (note_late F (count_actions F (note_interval F a iv) fire 1) late ns)
    unfolding count_actions note_late add_value
    shot-IsCounted fire deadline late ns =
        let e = note_interval_rest a iv in
        record {
          actions_are = ground (arith, ap (λ (t : Totals). t.actions) e, h.actions_are);
          missed_are = ap (λ (t : Totals). t.missed) e ∙ h.missed_are;
          intervals_are = omega (arith, intervals_after past a iv h ge);
          lates_are = ground (arith, ap (λ (t : Totals). t.lates) e, h.lates_are);
          last_is = ground arith;
          send_max_is = ap (λ (t : Totals). t.send_max) e ∙ h.send_max_is;
          send_accum_is = ap (λ (t : Totals). t.send_accum) e ∙ h.send_accum_is;
        }

  module _ (freq : ℕ) (ns_of : F.Double → ℕ) (width : ℕ) (target : F.Double) where
    -- A run begins after the time 0, and its actions come in the order of their times, with no pause
    -- of more than 100 slots. Then the counters are the totals of its reports: the actions and
    -- the missed ones; an interval for each call with actions but the first; a lateness for each
    -- action with a deadline; the time of the last action; and the longest time in `SendInput` and
    -- the sum of these times, a negative one counted as 0. Counts are modulo 2^64.
    pub after-IsCounted :
        (past : List Report)
        → IsTimely width t0 past
        → IsCounted F t0 past (stats_after F freq ns_of width t0 target past)
    unfolding stats_after report on_action on_actions on_send_duration on_missed begin_with cleared
    after-IsCounted [] h = record {
      actions_are = refl;
      missed_are = refl;
      intervals_are = refl;
      lates_are = refl;
      last_is = refl;
      send_max_is = refl;
      send_accum_is = refl;
    }
    after-IsCounted (shot fire deadline ∷ past) h =
        shot-IsCounted past _ _ (advanced-IsCounted past _ fire (after-IsCounted past h.1))
          (last_time-ge width past h.1) fire deadline _ _
    after-IsCounted (volley now n ∷ past) h =
        volley-IsCounted past _ _ (advanced-IsCounted past _ now (after-IsCounted past h.1))
          (last_time-ge width past h.1) now n
    after-IsCounted (sent ticks ∷ past) h =
        let ih = after-IsCounted past h in
        record {
          actions_are = ih.actions_are;
          missed_are = ih.missed_are;
          intervals_are = ih.intervals_are;
          lates_are = ih.lates_are;
          last_is = ih.last_is;
          send_max_is = ground (arith, ih.send_max_is);
          send_accum_is = ground (arith, ih.send_accum_is);
        }
    after-IsCounted (skipped n ∷ past) h =
        let ih = after-IsCounted past h in
        record {
          actions_are = ih.actions_are;
          missed_are = ground (arith, ih.missed_are);
          intervals_are = ih.intervals_are;
          lates_are = ih.lates_are;
          last_is = ih.last_is;
          send_max_is = ih.send_max_is;
          send_accum_is = ih.send_accum_is;
        }
