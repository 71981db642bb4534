-- ===== src/Examples/Application.antt =====
-- The application with a MAX profile on the left button, at whole numbers.
use infinity_clicker.Base.{ℕ, ◌≡◌, ◌≢◌, ◌⊎◌, ◌||◌, refl, arith, true, false, List, [], ◌∷◌, none}
use infinity_clicker.Json.{Text, codes}
use infinity_clicker.Input.KeyChord.{
  KeyChord, no_chord, chord_mouse, chord_key, left, is_mouse, button_code,
}
use infinity_clicker.Trigger.{hook, off}
use infinity_clicker.Trigger.Hooks.{Granted, Sources, update_hooks}
use infinity_clicker.Profiles.Profile.{Profile}
use infinity_clicker.Profiles.Settings.{default_settings}
use infinity_clicker.Profiles.Store.Defaults.{new_profile}
use infinity_clicker.Profiles.Store.Load.{Store}
use infinity_clicker.App.{
  App, TriggerSetup, no_target, active, for_emergency, make_engine_config, save_store,
}
use infinity_clicker.App.Capture.{
  profile_changed, apply_captured, on_captured, is_plain_left, begin_capture,
}
use infinity_clicker.App.Operations.{
  TickReading, tick, set_ui_window, open_pad, pad_closed, start_up,
}
use infinity_clicker.App.Picker.{button, pick_emergency, pick_emergency-left}
use infinity_clicker.App.Sequence.{
  Operation, edit_profile, opens_pad, user_closes_pad, begins_capture, captures, applies_captured,
  sets_window, perform_all, edited,
}
use infinity_clicker.App.InForce.{IsInForce}
use infinity_clicker.App.Backpressure.{started, started-IsInForce, started-watched}
use infinity_clicker.App.Emergency.{HasSafeStop, perform_all-HasSafeStop}
use infinity_clicker.App.Saving.{IsHanded, ShowsFailure, edited-IsHanded}
use infinity_clicker.App.Late.{tick-apply_captured}
use infinity_clicker.Examples.Json.{whole_numbers}
use infinity_clicker.Examples.Profiles.{whole_rates, layout}

abbrev same : Text → Text
same t = t

abbrev plain : ℕ → ℕ
plain n = n

abbrev left_button : KeyChord
left_button = chord_mouse left 0

abbrev MyProfile : Type 0
MyProfile = Profile whole_numbers whole_rates

-- At full speed, with the hook to see what arrives.
abbrev full_speed : MyProfile → MyProfile
full_speed p = record p {
  max_mode = true;
  max_backpressure = true;
  max_inflight = 64;
  action = record (p.action) { chord = left_button };
}

abbrev my_store : Store whole_numbers whole_rates
my_store = record {
  profiles = new_profile whole_numbers whole_rates layout ∷ [];
  settings = record (default_settings layout) { active_profile = codes "Profile" };
}

abbrev no_setup : TriggerSetup
no_setup = record {
  hooks = record {
    trigger = no_chord;
    suppress_trigger = false;
    accept_injected = false;
    accept_bench_tag = false;
    emergency = no_chord;
    mouse_backend = hook;
    observe_mouse = false;
    has_own_window = false;
  };
  filter_enabled = false;
  target_processes = [];
  pause_on_own_window = true;
  own_window = 0;
  test_pad = 0;
}

abbrev idle_app : App whole_numbers whole_rates
idle_app = record {
  store = my_store;
  trigger_setup = no_setup;
  engine_setup =
      make_engine_config whole_numbers whole_rates (new_profile whole_numbers whole_rates layout);
  ui_window = 0;
  pad_window = 0;
  dirty = false;
  save_at = 0;
  lab_observe = false;
  accept_bench_tag = false;
  test_target = 0;
  pad_exempt = true;
  lab_run_active = false;
  lab_run_base = 0;
  capture_target = no_target;
  capture_deadline = 0;
  captured = none;
  status = none;
  status_until = 0;
  last_health = 0;
  health_accepted = 0;
  health_observed = 0;
  effects = [];
}

-- A window is made, the profile goes to full speed, the user closes a test pad, and Left Mouse is captured for the emergency stop.
abbrev session : List (Operation whole_numbers whole_rates)
session =
    sets_window 7
    ∷ edit_profile 100 full_speed
    ∷ opens_pad true 9
    ∷ user_closes_pad
    ∷ begins_capture 200 for_emergency
    ∷ captures left_button
    ∷ applies_captured 205
    ∷ []

abbrev reading : ℕ → TickReading
reading now = record {
  now = now;
  saves = true;
  runs_completed = 0;
  accepted = 0;
  observed = 0;
  mouse_hook = true;
}

started-IsInForce_example :
    IsInForce whole_numbers whole_rates layout same plain plain (
      started whole_numbers whole_rates layout same plain plain session 0 my_store [] true idle_app)
started-IsInForce_example =
    started-IsInForce whole_numbers whole_rates layout same plain plain session 0 my_store [] true
      idle_app

-- Windows refuses the mouse hook.
abbrev refused : Granted
refused = record { mouse_hook_ok = false; raw_ok = true; kb_hook_ok = true; hotkey_ok = true }

abbrev no_sources : Sources
no_sources = record { mouse_hook = false; raw_on = false; kb_hook = false; hotkey_on = false }

waits_for_64 :
    (started whole_numbers whole_rates layout same plain plain session 0 my_store [] true
      idle_app).engine_setup.max_inflight
    ≡ 64
unfolding perform_all apply_captured on_captured begin_capture set_ui_window open_pad pad_closed
    chord_mouse button_code active start_up default_settings new_profile
waits_for_64 = refl

waits :
    (started whole_numbers whole_rates layout same plain plain session 0 my_store [] true
      idle_app).engine_setup.max_inflight
    ≢ 0
waits e = absurd (omega (arith, waits_for_64, e))

started-watched_example :
    let a =
      started whole_numbers whole_rates layout same plain plain session 0 my_store [] true
        idle_app in
    (a.engine_setup.max_mode ≡ true)
    × (is_mouse a.engine_setup.action.chord ≡ true)
    × ((update_hooks refused off a.trigger_setup.hooks no_sources).mouse_hook
        ≡ (no_sources.mouse_hook || refused.mouse_hook_ok))
started-watched_example =
    started-watched whole_numbers whole_rates layout same plain plain session 0 my_store [] true
      idle_app refused off no_sources waits

perform_all-HasSafeStop_example :
    HasSafeStop whole_numbers whole_rates layout same plain plain
      (perform_all whole_numbers whole_rates layout same plain plain session idle_app)
unfolding default_settings chord_key
perform_all-HasSafeStop_example =
    perform_all-HasSafeStop whole_numbers whole_rates layout same plain plain session idle_app
      (_, (_, (_, (_, (_, (_, (_, _))))))) refl

edited-IsHanded_example :
    let b =
      profile_changed whole_numbers whole_rates layout same plain plain 100
        (edited whole_numbers whole_rates layout same plain plain full_speed idle_app) in
    let r = record (reading 700) { saves = false } in
    let c = tick whole_numbers whole_rates layout same plain plain r b in
    IsHanded whole_numbers whole_rates layout same plain plain (save_store b.store) c
    × ((r.saves ≡ true) ⊎ ShowsFailure whole_numbers whole_rates layout same plain plain c)
edited-IsHanded_example =
    edited-IsHanded whole_numbers whole_rates layout same plain plain 100 full_speed idle_app
      (record (reading 700) { saves = false }) (omega arith)

-- A capture that began at 0 and lasts until 8.
abbrev capturing_app : App whole_numbers whole_rates
capturing_app = record idle_app { capture_target = for_emergency; capture_deadline = 8 }

tick-apply_captured_example :
    let b = tick whole_numbers whole_rates layout same plain plain (reading 9) capturing_app in
    let (bound, done) =
      apply_captured whole_numbers whole_rates layout same plain plain 10
        (on_captured whole_numbers whole_rates layout same plain plain left_button b) in
    (bound.store ≡ b.store) × (bound.capture_target ≡ no_target) × (done ≡ false)
tick-apply_captured_example =
    tick-apply_captured whole_numbers whole_rates layout same plain plain (reading 9) capturing_app
      left_button 10 (omega arith)

-- The emergency stop is a key without modifiers.
abbrev plain_stop : App whole_numbers whole_rates
plain_stop = record idle_app {
  store = record my_store {
    settings = record (my_store.settings) { emergency = chord_key layout 0x7B 0 };
  };
}

pick_emergency-left_example :
    is_plain_left
      (pick_emergency whole_numbers whole_rates layout same plain plain 300
        (button left)
        plain_stop).store.settings.emergency
    ≡ true
unfolding chord_key
pick_emergency-left_example =
    pick_emergency-left whole_numbers whole_rates layout same plain plain 300 plain_stop refl
