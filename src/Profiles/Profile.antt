-- ===== src/Profiles/Profile.antt =====
-- `Profile` of src/profiles/Profile.h and its JSON in src/profiles/Profile.cpp.
use infinity_clicker.Base.{
  ℕ, ◌≤◌, ◌≡◌, Bool, true, false, if◌then◌else◌, [], Option, none, some, pos, clamp_int,
}
use infinity_clicker.Json.{
  Text, codes, NumArith, Value, null, bool, number, string, find_member, set_member, set, find,
  get_bool, get_int, get_number, get_string,
}
use infinity_clicker.Modes.{ModeParams}
use infinity_clicker.Input.KeyChord.{KeyChord, chord_key, chord_mouse, left}
use infinity_clicker.Input.Action.{InputAction, scan_code}
use infinity_clicker.Trigger.{TriggerBackend}
use infinity_clicker.Engine.{LatePolicy}
use infinity_clicker.Profiles.Keys.{
  Precision, ThreadPrio, RateUnit, mode_key, parse_mode, precision_key, parse_precision, prio_key,
  parse_prio, rate_key, parse_rate, backend_key, parse_backend, late_key, parse_late,
}
use infinity_clicker.Profiles.Chord.{natural, empty_object, chord_to_json}
use infinity_clicker.Profiles.Action.{IsActionInRange, action_to_json, chord_or, action_from_json}

-- The bounds and the default of a rate: 0.01, 1'000'000 and 20 actions a second, and `<`.
pub record RateArith (na : NumArith) : Type 0 where
  pub less : na.Number → na.Number → Bool
  pub slowest : na.Number
  pub fastest : na.Number
  pub usual : na.Number

module _ (na : NumArith) (ra : RateArith na) where
  pub record Profile : Type 0 where
    pub name : Text
    pub trigger : KeyChord
    pub suppress_trigger : Bool
    pub mouse_backend : TriggerBackend
    pub action : InputAction
    pub mode : ModeParams
    pub rate_unit : RateUnit
    pub cps : na.Number
    pub max_mode : Bool
    pub max_batch : ℕ
    pub max_backpressure : Bool
    pub max_inflight : ℕ
    pub precision : Precision
    pub priority : ThreadPrio
    pub late_policy : LatePolicy
    pub filter_enabled : Bool
    pub target_process : Text

  -- `std::clamp(cps, 0.01, 1'000'000.0)`
  unfoldable pub clamp_rate : na.Number → na.Number
  clamp_rate n =
      if ra.less n ra.slowest then ra.slowest else if ra.less ra.fastest n then ra.fastest else n

  unfoldable pub to_json : (KeyChord → Text) → Profile → Value na
  unfolding set_member
  to_json chord_name p =
      let start = empty_object na in
      let named = set na start (codes "name") (string p.name) in
      let t1 = set na start (codes "chord") (chord_to_json na chord_name p.trigger) in
      let t2 = set na t1 (codes "suppress") (bool p.suppress_trigger) in
      let t = set na t2 (codes "mouseBackend") (string (backend_key p.mouse_backend)) in
      let with_trigger = set na named (codes "trigger") t in
      let with_action =
        set na with_trigger (codes "action") (action_to_json na chord_name p.action) in
      let m1 = set na start (codes "type") (string (mode_key p.mode.mode)) in
      let m2 = set na m1 (codes "burstCount") (natural na p.mode.burst_count) in
      let m3 = set na m2 (codes "fixedCount") (natural na p.mode.fixed_count) in
      let m = set na m3 (codes "durationMs") (natural na p.mode.duration_ms) in
      let with_mode = set na with_action (codes "mode") m in
      let s1 = set na start (codes "unit") (string (rate_key p.rate_unit)) in
      let s2 = set na s1 (codes "cps") (number p.cps) in
      let s3 = set na s2 (codes "max") (bool p.max_mode) in
      let s4 = set na s3 (codes "maxBatch") (natural na p.max_batch) in
      let s5 = set na s4 (codes "maxBackpressure") (bool p.max_backpressure) in
      let s = set na s5 (codes "maxInflight") (natural na p.max_inflight) in
      let with_speed = set na with_mode (codes "speed") s in
      let q1 = set na start (codes "precision") (string (precision_key p.precision)) in
      let q2 = set na q1 (codes "threadPriority") (string (prio_key p.priority)) in
      let q = set na q2 (codes "latePolicy") (string (late_key p.late_policy)) in
      let with_timing = set na with_speed (codes "timing") q in
      let f1 = set na start (codes "enabled") (bool p.filter_enabled) in
      let f = set na f1 (codes "process") (string p.target_process) in
      set na with_timing (codes "targetApp") f

  -- `v[key]`
  abbrev pub value_at : Value na → Text → Value na
  value_at v key = or_null (find na v key)
    where
      or_null : Option (Value na) → Value na
      or_null none = null
      or_null (some w) = w

  abbrev pub action_or : Option (Value na) → InputAction → InputAction
  action_or none a = a
  action_or (some v) a = action_from_json na v

  -- `Profile p;`, as far as `fromJson` keeps it.
  abbrev pub default_action : InputAction
  default_action = record {
    chord = chord_mouse left 0;
    down_time_us = 0;
    repeat = 1;
    repeat_gap_us = 0;
    wheel_delta = 120;
    key_mode = scan_code;
  }

  unfoldable pub from_json : (ℕ → ℕ) → Value na → Profile
  unfolding find_member
  from_json map_vk v =
      let t = value_at v (codes "trigger") in
      let m = value_at v (codes "mode") in
      let s = value_at v (codes "speed") in
      let q = value_at v (codes "timing") in
      let f = value_at v (codes "targetApp") in
      record {
        name = get_string na v (codes "name") (codes "Profile");
        trigger = chord_or na (find na t (codes "chord")) (chord_key map_vk 0x75 0);
        suppress_trigger = get_bool na t (codes "suppress") false;
        mouse_backend = parse_backend (get_string na t (codes "mouseBackend") (codes "hook"));
        action = action_or (find na v (codes "action")) default_action;
        mode = record {
          mode = parse_mode (get_string na m (codes "type") (codes "toggle"));
          burst_count = clamp_int 1 1_000_000_000 (get_int na m (codes "burstCount") (pos 10));
          fixed_count = clamp_int 1 1_000_000_000_000 (get_int na m (codes "fixedCount") (pos 100));
          duration_ms = clamp_int 1 86_400_000 (get_int na m (codes "durationMs") (pos 1000));
        };
        rate_unit = parse_rate (get_string na s (codes "unit") (codes "cps"));
        cps = clamp_rate (get_number na s (codes "cps") ra.usual);
        max_mode = get_bool na s (codes "max") false;
        max_batch = clamp_int 1 256 (get_int na s (codes "maxBatch") (pos 8));
        max_backpressure = get_bool na s (codes "maxBackpressure") true;
        max_inflight = clamp_int 16 1_000_000 (get_int na s (codes "maxInflight") (pos 2000));
        precision = parse_precision (get_string na q (codes "precision") (codes "standard"));
        priority = parse_prio (get_string na q (codes "threadPriority") (codes "highest"));
        late_policy = parse_late (get_string na q (codes "latePolicy") (codes "catchup"));
        filter_enabled = get_bool na f (codes "enabled") false;
        target_process = get_string na f (codes "process") [];
      }

  -- The numbers of a profile lie within the bounds of the program.
  pub record IsInRange (p : Profile) : Type 0 where
    pub action_in_range : IsActionInRange p.action
    pub burst_range : (1 ≤ p.mode.burst_count) × (p.mode.burst_count ≤ 1_000_000_000)
    pub fixed_range : (1 ≤ p.mode.fixed_count) × (p.mode.fixed_count ≤ 1_000_000_000_000)
    pub duration_range : (1 ≤ p.mode.duration_ms) × (p.mode.duration_ms ≤ 86_400_000)
    pub batch_range : (1 ≤ p.max_batch) × (p.max_batch ≤ 256)
    pub inflight_range : (16 ≤ p.max_inflight) × (p.max_inflight ≤ 1_000_000)
    pub rate_range : clamp_rate p.cps ≡ p.cps
