-- ===== src/Profiles/Stored.antt =====
-- What a profile of src/profiles/Profile.cpp keeps through its JSON, and what any JSON gives.
use infinity_clicker.Base.{ℕ, ◌≡◌, arith, false, Option, none, some, clamp_int_bounds}
use infinity_clicker.Json.{Text, NumArith, Value}
use infinity_clicker.Input.KeyChord.{KeyChord}
use infinity_clicker.Profiles.Keys.{
  mode_back, precision_back, prio_back, rate_back, backend_back, late_back,
}
use infinity_clicker.Profiles.Chord.{IsDouble, IsStorable, chord_from_json-to_json}
use infinity_clicker.Profiles.Action.{
  IsActionInRange, action_from_json-IsActionInRange, action_from_json-to_json, clamp-natural,
}
use infinity_clicker.Profiles.Profile.{
  RateArith, Profile, clamp_rate, action_or, default_action, to_json, from_json, IsInRange,
}

module _ (na : NumArith) (ra : RateArith na) where
  -- `<` on the bounds of a rate.
  pub record IsOrdered : Type 0 where
    pub slowest_irrefl : ra.less ra.slowest ra.slowest ≡ false
    pub fastest_irrefl : ra.less ra.fastest ra.fastest ≡ false
    pub in_order : ra.less ra.fastest ra.slowest ≡ false

  clamp_rate_idem :
      (n : na.Number) → IsOrdered → clamp_rate na ra (clamp_rate na ra n) ≡ clamp_rate na ra n
  unfolding clamp_rate
  clamp_rate_idem n o = ground arith

  action_or-IsActionInRange :
      (o : Option (Value na)) → IsActionInRange (action_or na ra o (default_action na ra))
  action_or-IsActionInRange none = omega arith
  action_or-IsActionInRange (some v) = action_from_json-IsActionInRange na v

  -- Whatever JSON a profile is made from, an empty or a foreign one too, its numbers are within the
  -- bounds of the program: the run modes start at least one action, and a rate is positive.
  pub from_json-IsInRange :
      (map_vk : ℕ → ℕ) (v : Value na) → IsOrdered → IsInRange na ra (from_json na ra map_vk v)
  unfolding from_json
  from_json-IsInRange map_vk v o = record {
    action_in_range = action_or-IsActionInRange _;
    burst_range = clamp_int_bounds 1 1_000_000_000 _ (omega arith);
    fixed_range = clamp_int_bounds 1 1_000_000_000_000 _ (omega arith);
    duration_range = clamp_int_bounds 1 86_400_000 _ (omega arith);
    batch_range = clamp_int_bounds 1 256 _ (omega arith);
    inflight_range = clamp_int_bounds 16 1_000_000 _ (omega arith);
    rate_range = clamp_rate_idem _ o;
  }

  pub from_json-to_json :
      (map_vk : ℕ → ℕ) (chord_name : KeyChord → Text) (p : Profile na ra)
      → IsDouble na
      → IsStorable p.trigger
      → IsStorable p.action.chord
      → IsInRange na ra p
      → from_json na ra map_vk (to_json na ra chord_name p) ≡ p
  unfolding from_json to_json
  from_json-to_json map_vk chord_name p laws t c r = ground (
    arith,
    chord_from_json-to_json na chord_name p.trigger laws t,
    action_from_json-to_json na chord_name p.action laws c r.action_in_range,
    mode_back p.mode.mode,
    clamp-natural na 1 1_000_000_000 p.mode.burst_count laws r.burst_range.0 r.burst_range.1
        (omega arith),
    clamp-natural na 1 1_000_000_000_000 p.mode.fixed_count laws r.fixed_range.0 r.fixed_range.1
        (omega arith),
    clamp-natural na 1 86_400_000 p.mode.duration_ms laws r.duration_range.0 r.duration_range.1
        (omega arith),
    rate_back p.rate_unit,
    r.rate_range,
    clamp-natural na 1 256 p.max_batch laws r.batch_range.0 r.batch_range.1 (omega arith),
    clamp-natural na 16 1_000_000 p.max_inflight laws r.inflight_range.0 r.inflight_range.1
        (omega arith),
    backend_back p.mouse_backend,
    precision_back p.precision,
    prio_back p.priority,
    late_back p.late_policy,
  )
