-- ===== src/App/Operations.antt =====
-- The operations of src/app/App.cpp that the user interface calls. A handler that reads the clock
-- more than once is given one reading. `ms` and `sec` convert times to ticks.
use infinity_clicker.Base.{
  ℕ, ◌+◌, ◌-◌, ◌%◌, ◌^◌, Bool, true, false, ◌&&◌, not, if◌then◌else◌, ltb, leb, ◌==◌, none,
}
use infinity_clicker.Json.{Text, NumArith}
use infinity_clicker.Modes.{RunLimits}
use infinity_clicker.Input.KeyChord.{is_mouse}
use infinity_clicker.Profiles.Profile.{RateArith}
use infinity_clicker.Profiles.Store.{set_active}
use infinity_clicker.Profiles.Store.Load.{Store}
use infinity_clicker.Str.{is_empty_text}
use infinity_clicker.App.{
  App, hook_failed, not_saved, binding_cancelled, stopped_all, arm_engine, start_run, stop_run,
  halt_all, shut_down, reinstall_hooks, save_store, open_window, close_window, activate_window,
  tell, apply_configs, active,
}
use infinity_clicker.App.Capture.{profile_changed, set_status, cancel_capture, is_capturing}

-- What `tick` reads from outside: the clock, whether a save succeeds, the engine's completed runs and
-- accepted events, the mouse events that the hook saw, and whether the hook is installed.
pub record TickReading : Type 0 where
  pub now : ℕ
  pub saves : Bool
  pub runs_completed : ℕ
  pub accepted : ℕ
  pub observed : ℕ
  pub mouse_hook : Bool

module _ (na : NumArith) (ra : RateArith na) (map_vk : ℕ → ℕ) (translate : Text → Text)
    (ms sec : ℕ → ℕ) where
  -- `settingsChanged`, without the switches of the log
  unfoldable pub settings_changed : ℕ → App na ra → App na ra
  unfolding profile_changed
  settings_changed now a = profile_changed na ra map_vk translate ms sec now a

  abbrev pub with_active_name : Text → App na ra → App na ra
  with_active_name n a = record a {
    store = record (a.store) { settings = record (a.store.settings) { active_profile = n } };
  }

  unfoldable pub select_profile : ℕ → Text → App na ra → App na ra
  unfolding profile_changed
  select_profile now name a =
      let (n, found) = set_active na ra a.store.profiles a.store.settings.active_profile name in
      if found then profile_changed na ra map_vk translate ms sec now (with_active_name n a) else a

  -- `saves` tells whether `ProfileStore::save` succeeds.
  unfoldable pub save_now : ℕ → Bool → App na ra → App na ra
  unfolding set_status
  save_now now saves a =
      let saved = tell na ra (record a { dirty = false }) (save_store a.store) in
      if saves then saved else set_status na ra map_vk translate ms sec now not_saved saved

  -- The hook is installed, and has seen none of the mouse events of the last period.
  unfoldable pub hook_lost : TickReading → App na ra → Bool
  hook_lost r a =
      r.mouse_hook
      && is_mouse (active na ra map_vk translate a.store).action.chord
      && ltb 200 ((r.accepted + 2 ^ 64 - a.health_accepted) % 2 ^ 64)
      && r.observed == a.health_observed

  unfoldable pub health_check : TickReading → App na ra → App na ra
  unfolding hook_lost
  health_check r a =
      let told = if hook_lost r a then tell na ra a reinstall_hooks else a in
      record told { health_accepted = r.accepted; health_observed = r.observed }

  abbrev pub tick_save : TickReading → App na ra → App na ra
  tick_save r a = if a.dirty && leb a.save_at r.now then save_now r.now r.saves a else a

  -- A lab run that has ended.
  abbrev pub tick_lab : TickReading → App na ra → App na ra
  tick_lab r a =
      if a.lab_run_active && ltb a.lab_run_base r.runs_completed
      then apply_configs na ra map_vk translate
          (record a { lab_run_active = false; test_target = 0 })
      else a

  abbrev pub tick_status : TickReading → App na ra → App na ra
  tick_status r a = if ltb a.status_until r.now then record a { status = none } else a

  -- A capture that has taken too long.
  abbrev pub tick_capture : TickReading → App na ra → App na ra
  tick_capture r a =
      if is_capturing na ra map_vk translate ms sec a.capture_target && ltb a.capture_deadline r.now
      then set_status na ra map_vk translate ms sec r.now binding_cancelled
          (cancel_capture na ra map_vk translate ms sec a)
      else a

  abbrev pub tick_health : TickReading → App na ra → App na ra
  tick_health r a =
      if ltb (sec 2) (r.now - a.last_health)
      then health_check r (record a { last_health = r.now })
      else a

  unfoldable pub tick : TickReading → App na ra → App na ra
  unfolding save_now health_check apply_configs set_status cancel_capture
  tick r a = tick_health r (tick_capture r (tick_status r (tick_lab r (tick_save r a))))

  unfoldable pub arm : Bool → App na ra → App na ra
  arm on a =
      let armed = tell na ra a (arm_engine on) in if on then armed else tell na ra armed stop_run

  -- `openPad`; `window` is that of the pad, if it can be opened.
  unfoldable pub open_pad : Bool → ℕ → App na ra → App na ra × Bool
  unfolding apply_configs
  open_pad open_it window a =
      if open_it
      then (
        apply_configs na ra map_vk translate
            (tell na ra (record a { pad_window = window }) open_window),
        not (window == 0),
      )
      else (
        apply_configs na ra map_vk translate
            (tell na ra (record a { pad_window = 0 }) close_window),
        true,
      )

  -- The user closes the window of the test pad: its thread clears the handle (src/lab/TestPad.cpp), and
  -- the application is not told.
  unfoldable pub pad_closed : App na ra → App na ra
  pad_closed a = record a { pad_window = 0 }

  -- The test pad is open, and a run aims at it.
  abbrev pub test_aimed : ℕ → ℕ → App na ra → App na ra
  test_aimed window runs a =
      let opened = if a.pad_window == 0 then (open_pad true window a).0 else a in
      record opened { lab_run_base = runs; lab_run_active = true; test_target = opened.pad_window }

  unfoldable pub start_test : RunLimits → ℕ → ℕ → App na ra → App na ra
  unfolding open_pad apply_configs
  start_test limits window runs a =
      let set = apply_configs na ra map_vk translate (test_aimed window runs a) in
      tell na ra (tell na ra set activate_window) (start_run limits)

  unfoldable pub stop : App na ra → App na ra
  stop a = tell na ra a stop_run

  unfoldable pub emergency : ℕ → App na ra → App na ra
  unfolding set_status
  emergency now a = set_status na ra map_vk translate ms sec now stopped_all (tell na ra a halt_all)

  unfoldable pub set_ui_window : ℕ → App na ra → App na ra
  unfolding apply_configs
  set_ui_window h a = apply_configs na ra map_vk translate (record a { ui_window = h })

  unfoldable pub set_lab_observe : Bool → App na ra → App na ra
  unfolding apply_configs
  set_lab_observe on a = apply_configs na ra map_vk translate (record a { lab_observe = on })

  unfoldable pub set_accept_bench_tag : Bool → App na ra → App na ra
  unfolding apply_configs
  set_accept_bench_tag on a =
      apply_configs na ra map_vk translate (record a { accept_bench_tag = on })

  unfoldable pub set_test_target : ℕ → App na ra → App na ra
  unfolding apply_configs
  set_test_target h a = apply_configs na ra map_vk translate (record a { test_target = h })

  unfoldable pub set_pad_exempt : Bool → App na ra → App na ra
  unfolding apply_configs
  set_pad_exempt on a = apply_configs na ra map_vk translate (record a { pad_exempt = on })

  -- The language that was asked for on the command line, if any.
  abbrev pub with_language : Text → Store na ra → Store na ra
  with_language language s = record s {
    settings =
        if is_empty_text language then s.settings else record (s.settings) { language = language };
  }

  -- The part of `init` from the loaded store on: the language that was asked for, the configurations,
  -- the start of the trigger engine, and arming.
  unfoldable pub start_up : ℕ → Store na ra → Text → Bool → App na ra → App na ra
  unfolding apply_configs set_status
  start_up now loaded language hooked a =
      let s = with_language language loaded in
      let set = apply_configs na ra map_vk translate (record a { store = s }) in
      let told =
        if hooked then set else set_status na ra map_vk translate ms sec now hook_failed set in
      if s.settings.arm_on_launch then tell na ra told (arm_engine true) else told

  -- `shutdown`, whose static flag says whether it has been called. `shut_down` stands for the end of
  -- the engine and of the trigger engine.
  unfoldable pub shutdown : ℕ → Bool → Bool → App na ra → App na ra
  unfolding save_now
  shutdown now done saves a =
      let saved = if a.dirty then save_now now saves a else a in
      if done
      then a
      else record (tell na ra (tell na ra (tell na ra saved stop_run) shut_down) close_window) {
        pad_window = 0;
      }
