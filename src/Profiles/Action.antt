-- ===== src/Profiles/Action.antt =====
-- `InputAction::toJson` and `fromJson` of src/input/InputAction.cpp.
use infinity_clicker.Base.{
  ℕ, ◌^◌, ◌<◌, ◌≤◌, ◌≡◌, refl, ap, ◌∙◌, arith, if◌then◌else◌, Option, none, some, pos, clamp_int,
  clamp_int-pos, clamp_int_bounds,
}
use infinity_clicker.Json.{
  Text, codes, text_eq, NumArith, Value, string, find_member, set_member, set, find, get_int,
  get_string,
}
use infinity_clicker.Input.KeyChord.{KeyChord, left, chord_mouse}
use infinity_clicker.Input.Action.{InputAction, KeyInjectMode, scan_code, virtual_key}
use infinity_clicker.Profiles.Chord.{
  IsDouble, IsStorable, natural, empty_object, chord_to_json, chord_from_json,
  chord_from_json-to_json,
}

abbrev pub key_mode_key : KeyInjectMode → Text
key_mode_key scan_code = codes "scancode"
key_mode_key virtual_key = codes "vk"

abbrev pub parse_key_mode : Text → KeyInjectMode
parse_key_mode s = if text_eq s (codes "vk") then virtual_key else scan_code

parse_key_mode-key : (m : KeyInjectMode) → parse_key_mode (key_mode_key m) ≡ m
parse_key_mode-key scan_code = refl
parse_key_mode-key virtual_key = refl

-- What `fromJson` makes of an action whatever it is given.
pub record IsActionInRange (a : InputAction) : Type 0 where
  pub down_time : a.down_time_us ≤ 10_000_000
  pub repeat_range : (1 ≤ a.repeat) × (a.repeat ≤ 3)
  pub gap : a.repeat_gap_us ≤ 10_000_000
  pub wheel : (1 ≤ a.wheel_delta) × (a.wheel_delta ≤ 1200)

module _ (na : NumArith) where
  unfoldable pub action_to_json : (KeyChord → Text) → InputAction → Value na
  unfolding set_member
  action_to_json name a =
      let chord = set na (empty_object na) (codes "chord") (chord_to_json na name a.chord) in
      let down = set na chord (codes "downTimeUs") (natural na a.down_time_us) in
      let repeat = set na down (codes "repeat") (natural na a.repeat) in
      let gap = set na repeat (codes "repeatGapUs") (natural na a.repeat_gap_us) in
      let wheel = set na gap (codes "wheelDelta") (natural na a.wheel_delta) in
      set na wheel (codes "keyMode") (string (key_mode_key a.key_mode))

  -- The chord under a key, or one that stands if the key is missing.
  abbrev pub chord_or : Option (Value na) → KeyChord → KeyChord
  chord_or none c = c
  chord_or (some v) c = chord_from_json na v

  unfoldable pub action_from_json : Value na → InputAction
  unfolding find_member
  action_from_json v = record {
    chord = chord_or (find na v (codes "chord")) (chord_mouse left 0);
    down_time_us = clamp_int 0 10_000_000 (get_int na v (codes "downTimeUs") (pos 0));
    repeat = clamp_int 1 3 (get_int na v (codes "repeat") (pos 1));
    repeat_gap_us = clamp_int 0 10_000_000 (get_int na v (codes "repeatGapUs") (pos 0));
    wheel_delta = clamp_int 1 1200 (get_int na v (codes "wheelDelta") (pos 120));
    key_mode = parse_key_mode (get_string na v (codes "keyMode") (codes "scancode"));
  }

  pub action_from_json-IsActionInRange : (v : Value na) → IsActionInRange (action_from_json v)
  unfolding action_from_json
  action_from_json-IsActionInRange v = record {
    down_time = (clamp_int_bounds 0 10_000_000 _ (omega arith)).1;
    repeat_range = clamp_int_bounds 1 3 _ (omega arith);
    gap = (clamp_int_bounds 0 10_000_000 _ (omega arith)).1;
    wheel = clamp_int_bounds 1 1200 _ (omega arith);
  }

  -- A number within its bounds is read back.
  pub clamp-natural :
      (lo hi n : ℕ)
      → IsDouble na
      → lo ≤ n
      → n ≤ hi
      → hi < 2 ^ 53
      → clamp_int lo hi (na.to_int (na.of_int (pos n))) ≡ n
  clamp-natural lo hi n laws l h u =
      ap (clamp_int lo hi) (laws.exact_pos n (omega arith)) ∙ clamp_int-pos lo hi n l h

  pub action_from_json-to_json :
      (name : KeyChord → Text) (a : InputAction)
      → IsDouble na
      → IsStorable a.chord
      → IsActionInRange a
      → action_from_json (action_to_json name a) ≡ a
  unfolding action_from_json action_to_json
  action_from_json-to_json name a laws c r = ground (
    arith,
    chord_from_json-to_json na name a.chord laws c,
    clamp-natural 0 10_000_000 a.down_time_us laws (omega arith) r.down_time (omega arith),
    clamp-natural 1 3 a.repeat laws r.repeat_range.0 r.repeat_range.1 (omega arith),
    clamp-natural 0 10_000_000 a.repeat_gap_us laws (omega arith) r.gap (omega arith),
    clamp-natural 1 1200 a.wheel_delta laws r.wheel.0 r.wheel.1 (omega arith),
    parse_key_mode-key a.key_mode,
  )
