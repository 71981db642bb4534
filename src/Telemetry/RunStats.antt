-- ===== src/Telemetry/RunStats.antt =====
-- `RunStats` of src/telemetry/Stats.h and Stats.cpp: the counters of one run, which the scheduler
-- thread keeps, and the ring of slots of 100 ms. `slots[i]` is a function of the index. Times are
-- natural numbers; a deadline may be any integer. `ns_of` converts a double to uint64_t.
use infinity_clicker.Base.{
  ℕ, zero, suc, ◌+◌, ◌-◌, ◌%◌, ◌^◌, ◌==◌, ltb, leb, if◌then◌else◌, ℤ, pos, negsuc, sub_ℕ,
}
use infinity_clicker.Clock.{FloatArith, of_nat, ticks_to_ns, ms_to_ticks}
use infinity_clicker.Telemetry.Histogram.{LogHistogram, empty, add}
use infinity_clicker.Telemetry.Running.{Running, cleared, add_value}
pub mod Fill
pub mod Slots
pub mod Held
pub mod Shown
pub mod Counted

abbrev pub k_cps_history : ℕ
k_cps_history = 100

-- What the code does with a time that is negative or not where it is used as a length.
abbrev pub at_least_zero : ℤ → ℕ
at_least_zero (pos n) = n
at_least_zero (negsuc n) = 0

-- `fire > deadline ? fire - deadline : 0`
abbrev pub lateness : ℕ → ℤ → ℕ
lateness fire (pos d) = fire - d
lateness fire (negsuc d) = fire + d + 1

module _ (F : FloatArith) where
  pub record RunStats : Type 0 where
    pub start : ℕ
    pub target_period : F.Double
    pub actions : ℕ
    pub missed : ℕ
    pub last_fire : ℕ
    pub first_fire : ℕ
    pub interval_run : Running F
    pub interval_sec : Running F
    pub interval_last_sec : Running F
    pub late_run : Running F
    pub late_sec : Running F
    pub late_last_sec : Running F
    pub late_hist_run : LogHistogram
    pub late_hist_sec : LogHistogram
    pub late_hist_last_sec : LogHistogram
    pub over100_run : ℕ
    pub over100_sec : ℕ
    pub over100_last_sec : ℕ
    pub send_hist : LogHistogram
    pub send_max : ℕ
    pub send_max_sec : ℕ
    pub send_max_last_sec : ℕ
    pub send_accum : ℕ
    pub slot_ticks : ℕ
    pub slot_end : ℕ
    pub slot_count : ℕ
    pub slots : ℕ → ℕ
    pub slot_head : ℕ
    pub slot_filled : ℕ
    pub slots_done : ℕ

  -- `begin`, with the length of a slot in ticks.
  unfoldable pub begin_with : ℕ → ℕ → F.Double → RunStats
  begin_with slot now target = record {
    start = now;
    target_period = target;
    actions = 0;
    missed = 0;
    last_fire = 0;
    first_fire = 0;
    interval_run = cleared F;
    interval_sec = cleared F;
    interval_last_sec = cleared F;
    late_run = cleared F;
    late_sec = cleared F;
    late_last_sec = cleared F;
    late_hist_run = empty;
    late_hist_sec = empty;
    late_hist_last_sec = empty;
    over100_run = 0;
    over100_sec = 0;
    over100_last_sec = 0;
    send_hist = empty;
    send_max = 0;
    send_max_sec = 0;
    send_max_last_sec = 0;
    send_accum = 0;
    slot_ticks = slot;
    slot_end = now + slot;
    slot_count = 0;
    slots = λ i. 0;
    slot_head = 0;
    slot_filled = 0;
    slots_done = 0;
  }

  unfoldable pub begin : ℕ → ℕ → F.Double → RunStats
  unfolding begin_with
  begin freq now target =
      begin_with (at_least_zero (ms_to_ticks F freq (F.literal 100 0))) now target

  -- The end of a second in `push_slot`: the figures of the second become those of the last one.
  unfoldable pub roll_second : RunStats → RunStats
  roll_second s = record s {
    interval_last_sec = s.interval_sec;
    late_last_sec = s.late_sec;
    late_hist_last_sec = s.late_hist_sec;
    over100_last_sec = s.over100_sec;
    send_max_last_sec = s.send_max_sec;
    send_max_sec = 0;
    interval_sec = cleared F;
    late_sec = cleared F;
    late_hist_sec = empty;
    over100_sec = 0;
  }

  -- `push_slot` up to the test for a whole second.
  unfoldable pub store_slot : RunStats → RunStats
  store_slot s = record s {
    slots = λ i. if i == s.slot_head then s.slot_count else s.slots i;
    slot_head = (s.slot_head + 1) % k_cps_history;
    slot_filled = if ltb s.slot_filled k_cps_history then s.slot_filled + 1 else s.slot_filled;
    slot_count = 0;
    slots_done = (s.slots_done + 1) % 2 ^ 64;
  }

  unfoldable pub push_slot : RunStats → RunStats
  unfolding store_slot roll_second
  push_slot s = let t = store_slot s in if t.slots_done % 10 == 0 then roll_second t else t

  -- The loop of `advance` with `left` rounds before the one that gives up and takes a new start.
  unfoldable pub roll : ℕ → RunStats → ℕ → RunStats
  unfolding push_slot
  roll zero s now =
      if leb s.slot_end now then record (push_slot s) { slot_end = now + s.slot_ticks } else s
  roll (suc left) s now =
      let rest = roll left (record (push_slot s) { slot_end = s.slot_end + s.slot_ticks }) now in
      if leb s.slot_end now then rest else s

  unfoldable pub advance : RunStats → ℕ → RunStats
  unfolding roll
  advance s now = roll (k_cps_history + 10) s now

  -- The counts of an action or of a call with `n` actions.
  unfoldable pub count_actions : RunStats → ℕ → ℕ → RunStats
  count_actions s fire n = record s {
    actions = (s.actions + n) % 2 ^ 64;
    slot_count = (s.slot_count + n) % 2 ^ 32;
    first_fire = if s.first_fire == 0 then fire else s.first_fire;
    last_fire = fire;
  }

  -- The interval since the last action, if there was one.
  unfoldable pub note_interval : RunStats → F.Double → RunStats
  note_interval s iv = if s.last_fire == 0 then s else record s {
    interval_run = add_value F s.interval_run iv;
    interval_sec = add_value F s.interval_sec iv;
  }

  -- How late an action came, in ticks and in nanoseconds.
  unfoldable pub note_late : RunStats → ℕ → ℕ → RunStats
  note_late s late ns = record s {
    late_run = add_value F s.late_run (of_nat F late);
    late_sec = add_value F s.late_sec (of_nat F late);
    late_hist_run = add s.late_hist_run ns;
    late_hist_sec = add s.late_hist_sec ns;
    over100_run = if ltb 100000 ns then (s.over100_run + 1) % 2 ^ 64 else s.over100_run;
    over100_sec = if ltb 100000 ns then (s.over100_sec + 1) % 2 ^ 64 else s.over100_sec;
  }

  module _ (freq : ℕ) (ns_of : F.Double → ℕ) where
    -- The deadline is `deadline`; `late` is how far `fire` lies behind it.
    unfoldable pub on_action : RunStats → ℕ → ℤ → RunStats
    unfolding advance note_interval count_actions note_late
    on_action s0 fire deadline =
        let s = advance s0 fire in
        let counted = count_actions (note_interval s (F.of_int (sub_ℕ fire s.last_fire))) fire 1 in
        let late = lateness fire deadline in
        note_late counted late (ns_of (ticks_to_ns F freq (pos late)))

    unfoldable pub on_actions : RunStats → ℕ → ℕ → RunStats
    unfolding advance note_interval count_actions
    on_actions s0 now n =
        let s = advance s0 now in
        let iv = F.div (F.of_int (sub_ℕ now s.last_fire)) (of_nat F n) in
        count_actions (note_interval s iv) now n

    unfoldable pub on_send_duration : RunStats → ℤ → RunStats
    on_send_duration s ticks =
        let t = at_least_zero ticks in
        record s {
          send_hist = add s.send_hist (ns_of (ticks_to_ns F freq (pos t)));
          send_max = if ltb s.send_max t then t else s.send_max;
          send_max_sec = if ltb s.send_max_sec t then t else s.send_max_sec;
          send_accum = s.send_accum + t;
        }

  unfoldable pub on_missed : RunStats → ℕ → RunStats
  on_missed s n = record s { missed = (s.missed + n) % 2 ^ 64 }

  -- `takeSendTicks` returns the time in `SendInput` since the last call.
  unfoldable pub take_send_ticks : RunStats → ℕ × RunStats
  take_send_ticks s = (s.send_accum, record s { send_accum = 0 })
