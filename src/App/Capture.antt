-- ===== src/App/Capture.antt =====
-- Binding a key in src/app/App.cpp, and what the trigger thread reports to the application. `ms`
-- and `sec` convert times to ticks.
use infinity_clicker.Base.{
  ℕ, ◌+◌, ◌-◌, Bool, true, false, ◌&&◌, if◌then◌else◌, ◌==◌, Option, none, some,
}
use infinity_clicker.Json.{Text, NumArith}
use infinity_clicker.Input.KeyChord.{KeyChord, is_mouse, button_code, left}
use infinity_clicker.Profiles.Profile.{RateArith, Profile}
use infinity_clicker.App.{
  App, CaptureTarget, no_target, for_trigger, for_action, for_emergency, Status, left_refused,
  trigger_is, action_is, emergency_is, halt_all, capture_on, capture_off, post_emergency,
  post_captured, post_gate, tell, apply_configs, change_active,
}

-- Left Mouse without modifiers.
abbrev pub is_plain_left : KeyChord → Bool
is_plain_left c = is_mouse c && c.code == button_code left && c.mods == 0

module _ (na : NumArith) (ra : RateArith na) (map_vk : ℕ → ℕ) (translate : Text → Text)
    (ms sec : ℕ → ℕ) where
  -- `profileChanged`: the change is in force, and will be saved.
  unfoldable pub profile_changed : ℕ → App na ra → App na ra
  unfolding apply_configs
  profile_changed now a = record (apply_configs na ra map_vk translate a) {
    dirty = true;
    save_at = now + ms 600;
  }

  unfoldable pub set_status : ℕ → Status → App na ra → App na ra
  set_status now s a = record a { status = some s; status_until = now + sec 6 }

  unfoldable pub begin_capture : ℕ → CaptureTarget → App na ra → App na ra
  begin_capture now t a =
      tell na ra (record a { captured = none; capture_target = t; capture_deadline = now + sec 8 })
        capture_on

  unfoldable pub cancel_capture : App na ra → App na ra
  cancel_capture a = tell na ra (record a { capture_target = no_target }) capture_off

  abbrev pub is_capturing : CaptureTarget → Bool
  is_capturing no_target = false
  is_capturing for_trigger = true
  is_capturing for_action = true
  is_capturing for_emergency = true

  -- The ticks left of `captureSecondsLeft`, which shows no negative number.
  unfoldable pub capture_ticks_left : ℕ → App na ra → ℕ
  capture_ticks_left now a = if is_capturing a.capture_target then a.capture_deadline - now else 0

  abbrev pub with_emergency : KeyChord → App na ra → App na ra
  with_emergency c a = record a {
    store = record (a.store) { settings = record (a.store.settings) { emergency = c } };
  }

  -- The active profile with the chord as its trigger, or as its action.
  abbrev pub with_trigger : ℕ → KeyChord → App na ra → App na ra
  with_trigger now c a =
      let s = change_active na ra map_vk translate (λ p. record p { trigger = c }) a.store in
      set_status now (trigger_is c) (record a { store = s })

  abbrev pub with_action : ℕ → KeyChord → App na ra → App na ra
  with_action now c a =
      let set_chord : Profile na ra → Profile na ra =
        λ p. record p { action = record (p.action) { chord = c } } in
      let s = change_active na ra map_vk translate set_chord a.store in
      set_status now (action_is c) (record a { store = s })

  -- The `switch` of `applyCaptured`.
  unfoldable pub bind : ℕ → KeyChord → CaptureTarget → App na ra → App na ra × Bool
  unfolding profile_changed set_status change_active
  bind now c for_trigger a = (profile_changed now (with_trigger now c a), true)
  bind now c for_action a = (profile_changed now (with_action now c a), true)
  bind now c for_emergency a =
      if is_plain_left c
      then (set_status now left_refused a, true)
      else (profile_changed now (set_status now (emergency_is c) (with_emergency c a)), true)
  bind now c no_target a = (a, false)

  abbrev pub bind_captured : ℕ → Option KeyChord → App na ra → App na ra × Bool
  bind_captured now none a = (a, false)
  bind_captured now (some c) a =
      bind now c a.capture_target (record a { captured = none; capture_target = no_target })

  unfoldable pub apply_captured : ℕ → App na ra → App na ra × Bool
  unfolding bind
  apply_captured now a = bind_captured now a.captured a

  -- The trigger thread has captured a chord.
  unfoldable pub on_captured : KeyChord → App na ra → App na ra
  on_captured c a =
      let got = record a { captured = some c } in
      if a.ui_window == 0 then got else tell na ra got post_captured

  unfoldable pub on_emergency : App na ra → App na ra
  on_emergency a =
      let halted = tell na ra a halt_all in
      if a.ui_window == 0 then halted else tell na ra halted post_emergency

  unfoldable pub on_gate_changed : App na ra → App na ra
  on_gate_changed a = if a.ui_window == 0 then a else tell na ra a post_gate
