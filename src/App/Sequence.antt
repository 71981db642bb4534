-- ===== src/App/Sequence.antt =====
-- The operations of src/app/App.cpp, and the closing of the test pad by the user, in any
-- order, with what each reads from outside.
use infinity_clicker.Base.{ℕ, Bool, List, [], ◌∷◌}
use infinity_clicker.Json.{Text, NumArith}
use infinity_clicker.Modes.{RunLimits}
use infinity_clicker.Input.KeyChord.{KeyChord}
use infinity_clicker.Profiles.Profile.{RateArith, Profile}
use infinity_clicker.Profiles.Settings.{AppSettings}
use infinity_clicker.App.{App, CaptureTarget, change_active}
use infinity_clicker.App.Capture.{
  profile_changed, begin_capture, cancel_capture, apply_captured, on_captured, on_emergency,
  on_gate_changed,
}
use infinity_clicker.App.Operations.{
  TickReading, settings_changed, select_profile, tick, arm, open_pad, pad_closed, start_test, stop,
  emergency, set_ui_window, set_lab_observe, set_accept_bench_tag, set_test_target, set_pad_exempt,
}

module _ (na : NumArith) (ra : RateArith na) where
  -- An edit of the user interface is a function of the profile or of the settings.
  pub data Operation : Type 0 where
    edit_profile : (now : ℕ) → (Profile na ra → Profile na ra) → Operation
    edit_settings : (now : ℕ) → (AppSettings → AppSettings) → Operation
    choose_profile : (now : ℕ) → Text → Operation
    ticks : TickReading → Operation
    arms : Bool → Operation
    opens_pad : Bool → (window : ℕ) → Operation
    starts_test : RunLimits → (window runs : ℕ) → Operation
    stops gate_changes halts_by_trigger user_closes_pad : Operation
    halts : (now : ℕ) → Operation
    begins_capture : (now : ℕ) → CaptureTarget → Operation
    cancels_capture : Operation
    applies_captured : (now : ℕ) → Operation
    captures : KeyChord → Operation
    sets_window sets_test_target : ℕ → Operation
    sets_lab_observe sets_bench_tag sets_pad_exempt : Bool → Operation

module _ (na : NumArith) (ra : RateArith na) (map_vk : ℕ → ℕ) (translate : Text → Text)
    (ms sec : ℕ → ℕ) where
  abbrev pub edited : (Profile na ra → Profile na ra) → App na ra → App na ra
  edited f a = record a { store = change_active na ra map_vk translate f a.store }

  abbrev pub with_settings : (AppSettings → AppSettings) → App na ra → App na ra
  with_settings f a = record a { store = record (a.store) { settings = f a.store.settings } }

  abbrev pub perform : Operation na ra → App na ra → App na ra
  perform (edit_profile now f) a = profile_changed na ra map_vk translate ms sec now (edited f a)
  perform (edit_settings now f) a =
      settings_changed na ra map_vk translate ms sec now (with_settings f a)
  perform (choose_profile now n) a = select_profile na ra map_vk translate ms sec now n a
  perform (ticks r) a = tick na ra map_vk translate ms sec r a
  perform (arms on) a = arm na ra map_vk translate ms sec on a
  perform (opens_pad on window) a = (open_pad na ra map_vk translate ms sec on window a).0
  perform (starts_test limits window runs) a =
      start_test na ra map_vk translate ms sec limits window runs a
  perform user_closes_pad a = pad_closed na ra map_vk translate ms sec a
  perform stops a = stop na ra map_vk translate ms sec a
  perform gate_changes a = on_gate_changed na ra map_vk translate ms sec a
  perform halts_by_trigger a = on_emergency na ra map_vk translate ms sec a
  perform (halts now) a = emergency na ra map_vk translate ms sec now a
  perform (begins_capture now t) a = begin_capture na ra map_vk translate ms sec now t a
  perform cancels_capture a = cancel_capture na ra map_vk translate ms sec a
  perform (applies_captured now) a = (apply_captured na ra map_vk translate ms sec now a).0
  perform (captures c) a = on_captured na ra map_vk translate ms sec c a
  perform (sets_window h) a = set_ui_window na ra map_vk translate ms sec h a
  perform (sets_test_target h) a = set_test_target na ra map_vk translate ms sec h a
  perform (sets_lab_observe on) a = set_lab_observe na ra map_vk translate ms sec on a
  perform (sets_bench_tag on) a = set_accept_bench_tag na ra map_vk translate ms sec on a
  perform (sets_pad_exempt on) a = set_pad_exempt na ra map_vk translate ms sec on a

  unfoldable pub perform_all : List (Operation na ra) → App na ra → App na ra
  perform_all [] a = a
  perform_all (o ∷ os) a = perform_all os (perform o a)
