-- ===== src/App/Backpressure.antt =====
-- The configurations in force over sequences of operations of src/app/App.cpp, and the wait for events
-- that the mouse hook sees.
use infinity_clicker.Base.{
  ℕ, ◌+◌, Bool, true, false, if◌then◌else◌, ◌||◌, ◌==◌, ◌≡◌, ◌≢◌, refl, arith, ap, Bool-cases, inl,
  inr, List, [], ◌∷◌, Option, none, some,
}
use infinity_clicker.Json.{Text, NumArith}
use infinity_clicker.Input.KeyChord.{KeyChord, is_mouse}
use infinity_clicker.Profiles.Profile.{RateArith}
use infinity_clicker.Profiles.Store.Load.{Store}
use infinity_clicker.App.{
  App, CaptureTarget, no_target, for_trigger, for_action, for_emergency, apply_configs, active,
  trigger_setup_of, engine_setup_of, tell, Effect, EngineSetup, TriggerSetup, make_engine_config,
  hook_failed, Status, left_refused, emergency_is, stopped_all, arm_engine, start_run, stop_run,
  halt_all, open_window, close_window, activate_window, capture_on, capture_off, post_emergency,
  post_captured, post_gate,
}
use infinity_clicker.App.Capture.{
  is_plain_left, set_status, begin_capture, cancel_capture, bind, bind_captured, with_trigger,
  with_action, with_emergency, apply_captured, on_captured, on_emergency, on_gate_changed,
}
use infinity_clicker.App.Operations.{
  settings_changed, arm, open_pad, pad_closed, start_test, test_aimed, stop, emergency,
  set_ui_window, set_lab_observe, set_accept_bench_tag, set_test_target, set_pad_exempt, start_up,
  with_language,
}
use infinity_clicker.Trigger.{CaptureState}
use infinity_clicker.Trigger.Hooks.{Granted, Sources, update_hooks, needs_hook}
use infinity_clicker.App.InForce.{
  IsInForce, apply_configs-IsInForce, profile_changed-IsInForce, select_profile-IsInForce,
  tick-IsInForce,
}
use infinity_clicker.App.Sequence.{
  Operation, edit_profile, edit_settings, choose_profile, ticks, arms, opens_pad, starts_test,
  stops, user_closes_pad, gate_changes, halts_by_trigger, halts, begins_capture, cancels_capture,
  applies_captured, captures, sets_window, sets_test_target, sets_lab_observe, sets_bench_tag,
  sets_pad_exempt, perform, perform_all, edited, with_settings,
}

module _ (na : NumArith) (ra : RateArith na) (map_vk : ℕ → ℕ) (translate : Text → Text)
    (ms sec : ℕ → ℕ) where
  abbrev InForce : App na ra → Type 0
  InForce a = IsInForce na ra map_vk translate ms sec a

  tell-IsInForce : (a : App na ra) (e : Effect na ra) → InForce a → InForce (tell na ra a e)
  unfolding trigger_setup_of engine_setup_of
  tell-IsInForce a e h = record {
    pad = h.pad;
    pad_is = h.pad_is;
    trigger_is = h.trigger_is;
    engine_is = h.engine_is;
  }

  -- A change of what is captured leaves the configurations alone.
  captured-IsInForce :
      (a : App na ra) (t : CaptureTarget) (c : Option KeyChord) (deadline : ℕ)
      → InForce a
      → InForce (record a { captured = c; capture_target = t; capture_deadline = deadline })
  unfolding trigger_setup_of engine_setup_of
  captured-IsInForce a t c deadline h = record {
    pad = h.pad;
    pad_is = h.pad_is;
    trigger_is = h.trigger_is;
    engine_is = h.engine_is;
  }

  set_status-IsInForce :
      (now : ℕ) (s : Status) (a : App na ra)
      → InForce a
      → InForce (set_status na ra map_vk translate ms sec now s a)
  unfolding set_status trigger_setup_of engine_setup_of
  set_status-IsInForce now s a h = record {
    pad = h.pad;
    pad_is = h.pad_is;
    trigger_is = h.trigger_is;
    engine_is = h.engine_is;
  }

  bind-IsInForce :
      (now : ℕ) (c : KeyChord) (t : CaptureTarget) (a : App na ra)
      → InForce a
      → InForce (bind na ra map_vk translate ms sec now c t a).0
  unfolding bind
  bind-IsInForce now c no_target a h = h
  bind-IsInForce now c for_trigger a h =
      profile_changed-IsInForce na ra map_vk translate ms sec now
        (with_trigger na ra map_vk translate ms sec now c a)
  bind-IsInForce now c for_action a h =
      profile_changed-IsInForce na ra map_vk translate ms sec now
        (with_action na ra map_vk translate ms sec now c a)
  bind-IsInForce now c for_emergency a h = elim (Bool-cases (is_plain_left c)) [
    | inl e ↦ rw e (set_status-IsInForce now left_refused a h)
    | inr e ↦ rw e (
        profile_changed-IsInForce na ra map_vk translate ms sec now (
          set_status na ra map_vk translate ms sec now (emergency_is c)
            (with_emergency na ra map_vk translate ms sec c a)))
  ]

  bind_captured-IsInForce :
      (now : ℕ) (o : Option KeyChord) (a : App na ra)
      → InForce a
      → InForce (bind_captured na ra map_vk translate ms sec now o a).0
  bind_captured-IsInForce now none a h = h
  bind_captured-IsInForce now (some c) a h =
      bind-IsInForce now c a.capture_target
        (record a { captured = none; capture_target = no_target })
        (captured-IsInForce a no_target none a.capture_deadline h)

  open_pad-IsInForce :
      (on : Bool) (window : ℕ) (a : App na ra)
      → InForce (open_pad na ra map_vk translate ms sec on window a).0
  unfolding open_pad
  open_pad-IsInForce true window a =
      apply_configs-IsInForce na ra map_vk translate ms sec
        (tell na ra (record a { pad_window = window }) open_window)
  open_pad-IsInForce false window a =
      apply_configs-IsInForce na ra map_vk translate ms sec
        (tell na ra (record a { pad_window = 0 }) close_window)

  -- A post to the window, if there is one.
  posted-IsInForce :
      (b : Bool) (a : App na ra) (e : Effect na ra)
      → InForce a
      → InForce (if b then a else tell na ra a e)
  posted-IsInForce true a e h = h
  posted-IsInForce false a e h = tell-IsInForce a e h

  perform-IsInForce :
      (o : Operation na ra) (a : App na ra)
      → InForce a
      → InForce (perform na ra map_vk translate ms sec o a)
  unfolding settings_changed arm start_test stop pad_closed trigger_setup_of engine_setup_of
      emergency set_ui_window set_lab_observe set_accept_bench_tag set_test_target set_pad_exempt
      begin_capture cancel_capture on_captured on_emergency on_gate_changed apply_captured
  perform-IsInForce (edit_profile now f) a h =
      profile_changed-IsInForce na ra map_vk translate ms sec now
        (edited na ra map_vk translate ms sec f a)
  perform-IsInForce (edit_settings now f) a h =
      profile_changed-IsInForce na ra map_vk translate ms sec now
        (with_settings na ra map_vk translate ms sec f a)
  perform-IsInForce (choose_profile now n) a h =
      select_profile-IsInForce na ra map_vk translate ms sec now n a h
  perform-IsInForce (ticks r) a h = tick-IsInForce na ra map_vk translate ms sec r a h
  perform-IsInForce (arms true) a h = tell-IsInForce a (arm_engine true) h
  perform-IsInForce (arms false) a h =
      tell-IsInForce (tell na ra a (arm_engine false)) stop_run
        (tell-IsInForce a (arm_engine false) h)
  perform-IsInForce (opens_pad on window) a h = open_pad-IsInForce on window a
  perform-IsInForce (starts_test limits window runs) a h =
      let aimed = test_aimed na ra map_vk translate ms sec window runs a in
      let set = apply_configs na ra map_vk translate aimed in
      tell-IsInForce (tell na ra set activate_window) (start_run limits) (
        tell-IsInForce set activate_window
          (apply_configs-IsInForce na ra map_vk translate ms sec aimed))
  perform-IsInForce user_closes_pad a h = record {
    pad = h.pad;
    pad_is = inr refl;
    trigger_is = h.trigger_is;
    engine_is = h.engine_is;
  }
  perform-IsInForce stops a h = tell-IsInForce a stop_run h
  perform-IsInForce gate_changes a h = posted-IsInForce (a.ui_window == 0) a post_gate h
  perform-IsInForce halts_by_trigger a h =
      posted-IsInForce (a.ui_window == 0) (tell na ra a halt_all) post_emergency
        (tell-IsInForce a halt_all h)
  perform-IsInForce (halts now) a h =
      set_status-IsInForce now stopped_all (tell na ra a halt_all) (tell-IsInForce a halt_all h)
  perform-IsInForce (begins_capture now t) a h =
      tell-IsInForce
        (record a { captured = none; capture_target = t; capture_deadline = now + sec 8 })
        capture_on (captured-IsInForce a t none (now + sec 8) h)
  perform-IsInForce cancels_capture a h =
      tell-IsInForce (record a { capture_target = no_target }) capture_off
        (captured-IsInForce a no_target a.captured a.capture_deadline h)
  perform-IsInForce (applies_captured now) a h = bind_captured-IsInForce now a.captured a h
  perform-IsInForce (captures c) a h =
      posted-IsInForce (a.ui_window == 0) (record a { captured = some c }) post_captured
        (captured-IsInForce a a.capture_target (some c) a.capture_deadline h)
  perform-IsInForce (sets_window w) a h =
      apply_configs-IsInForce na ra map_vk translate ms sec (record a { ui_window = w })
  perform-IsInForce (sets_test_target w) a h =
      apply_configs-IsInForce na ra map_vk translate ms sec (record a { test_target = w })
  perform-IsInForce (sets_lab_observe on) a h =
      apply_configs-IsInForce na ra map_vk translate ms sec (record a { lab_observe = on })
  perform-IsInForce (sets_bench_tag on) a h =
      apply_configs-IsInForce na ra map_vk translate ms sec (record a { accept_bench_tag = on })
  perform-IsInForce (sets_pad_exempt on) a h =
      apply_configs-IsInForce na ra map_vk translate ms sec (record a { pad_exempt = on })

  perform_all-IsInForce :
      (os : List (Operation na ra)) (a : App na ra)
      → InForce a
      → InForce (perform_all na ra map_vk translate ms sec os a)
  unfolding perform_all
  perform_all-IsInForce [] a h = h
  perform_all-IsInForce (o ∷ os) a h =
      perform_all-IsInForce os (perform na ra map_vk translate ms sec o a) (perform-IsInForce o a h)

  start_up-IsInForce :
      (now : ℕ) (loaded : Store na ra) (language : Text) (hooked : Bool) (a : App na ra)
      → InForce (start_up na ra map_vk translate ms sec now loaded language hooked a)
  unfolding start_up
  start_up-IsInForce now loaded language hooked a =
      let s = with_language na ra map_vk translate ms sec language loaded in
      let set = apply_configs na ra map_vk translate (record a { store = s }) in
      let h = apply_configs-IsInForce na ra map_vk translate ms sec (record a { store = s }) in
      armed (s.settings.arm_on_launch) (shown hooked set h)
    where
      shown :
          (hooked : Bool) (b : App na ra)
          → InForce b
          → InForce
              (if hooked then b else set_status na ra map_vk translate ms sec now hook_failed b)
      shown true b h = h
      shown false b h = set_status-IsInForce now hook_failed b h

      armed :
          (on : Bool) {b : App na ra}
          → InForce b
          → InForce (if on then tell na ra b (arm_engine true) else b)
      armed true {b} h = tell-IsInForce b (arm_engine true) h
      armed false h = h

  -- The engine waits for events that the hook sees only if the hook sees them.
  backpressure-watched :
      (a : App na ra)
      → InForce a
      → a.engine_setup.max_inflight ≢ 0
      → (a.trigger_setup.hooks.observe_mouse ≡ true)
        × (a.engine_setup.max_mode ≡ true)
        × (is_mouse a.engine_setup.action.chord ≡ true)
  unfolding trigger_setup_of engine_setup_of make_engine_config
  backpressure-watched a h waits =
      let p = active na ra map_vk translate a.store in
      ground (
        arith,
        ap (λ (e : EngineSetup na ra). e.max_inflight) h.engine_is,
        ap (λ (e : EngineSetup na ra). e.max_mode) h.engine_is,
        ap (λ (e : EngineSetup na ra). is_mouse e.action.chord) h.engine_is,
        ap (λ (t : TriggerSetup). t.hooks.observe_mouse) h.trigger_is,
      )

  module _ (os : List (Operation na ra)) (now : ℕ) (loaded : Store na ra) (language : Text)
      (hooked : Bool) (a : App na ra) where
    -- The application after its start and the operations.
    abbrev pub started : App na ra
    started =
        perform_all na ra map_vk translate ms sec os
          (start_up na ra map_vk translate ms sec now loaded language hooked a)

    -- After the start and every sequence of operations, closings of the test pad by the user among
    -- them, the trigger engine and the scheduler have been given the configurations of the active
    -- profile, the settings and the windows as they are, but for the handle of the test pad: while the
    -- pad is closed, the one in force may be another than none.
    pub started-IsInForce : IsInForce na ra map_vk translate ms sec started
    started-IsInForce =
        perform_all-IsInForce os
          (start_up na ra map_vk translate ms sec now loaded language hooked a)
          (start_up-IsInForce now loaded language hooked a)

    -- After the start and every sequence of operations, a scheduler that is told to wait for events
    -- that the mouse hook sees runs a mouse action in MAX mode, and when the trigger engine next updates
    -- its hooks, the mouse hook is installed if it was or if Windows grants it, and not otherwise; the
    -- scheduler is told to wait in either case.
    pub started-watched :
        (g : Granted) (capture : CaptureState) (s : Sources)
        → started.engine_setup.max_inflight ≢ 0
        → (started.engine_setup.max_mode ≡ true)
          × (is_mouse started.engine_setup.action.chord ≡ true)
          × ((update_hooks g capture started.trigger_setup.hooks s).mouse_hook
              ≡ (s.mouse_hook || g.mouse_hook_ok))
    unfolding update_hooks needs_hook
    started-watched g capture s waits =
        let (seen, max, mouse) = backpressure-watched started started-IsInForce waits in
        (max, mouse, ground (arith, seen))
