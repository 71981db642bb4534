-- ===== src/App/Emergency.antt =====
-- The emergency stop that src/app/App.cpp lets the user bind by pressing it.
use infinity_clicker.Base.{
  ℕ, ◌-◌, Bool, true, false, ◌&&◌, if◌then◌else◌, ltb, leb, ◌==◌, ◌≡◌, refl, ap, ◌∙◌, Bool-cases,
  inl, inr, List, [], ◌∷◌, Option, none, some, All,
}
use infinity_clicker.Json.{Text, NumArith}
use infinity_clicker.Modes.{RunLimits}
use infinity_clicker.Input.KeyChord.{KeyChord}
use infinity_clicker.Profiles.Profile.{RateArith}
use infinity_clicker.Profiles.Settings.{AppSettings}
use infinity_clicker.Profiles.Store.{set_active}
use infinity_clicker.App.{
  App, CaptureTarget, no_target, for_trigger, for_action, for_emergency, apply_configs, tell,
  Effect, halt_all, post_gate, post_emergency, post_captured, change_active,
}
use infinity_clicker.App.Capture.{
  is_plain_left, profile_changed, set_status, begin_capture, cancel_capture, bind, bind_captured,
  apply_captured, on_captured, on_emergency, on_gate_changed, is_capturing,
}
use infinity_clicker.App.Operations.{
  TickReading, settings_changed, select_profile, save_now, health_check, hook_lost, tick, tick_save,
  tick_lab, tick_status, tick_capture, tick_health, arm, open_pad, pad_closed, start_test, stop,
  emergency, set_ui_window, set_lab_observe, set_accept_bench_tag, set_test_target, set_pad_exempt,
}
use infinity_clicker.App.Sequence.{
  Operation, edit_profile, edit_settings, choose_profile, ticks, arms, opens_pad, starts_test,
  stops, user_closes_pad, gate_changes, halts_by_trigger, halts, begins_capture, cancels_capture,
  applies_captured, captures, sets_window, sets_test_target, sets_lab_observe, sets_bench_tag,
  sets_pad_exempt, perform, perform_all,
}

module _ (na : NumArith) (ra : RateArith na) (map_vk : ℕ → ℕ) (translate : Text → Text)
    (ms sec : ℕ → ℕ) where
  -- An operation that edits the emergency stop at most by a capture.
  abbrev pub LeavesEmergency : Operation na ra → Type 0
  LeavesEmergency (edit_settings now f) = (s : AppSettings) → (f s).emergency ≡ s.emergency
  LeavesEmergency _ = Unit

  abbrev stop_of : App na ra → KeyChord
  stop_of a = a.store.settings.emergency

  -- A tick leaves the emergency stop alone.
  module _ (r : TickReading) (a : App na ra) where
    save_keeps : stop_of (tick_save na ra map_vk translate ms sec r a) ≡ stop_of a
    unfolding save_now set_status
    save_keeps = elim (Bool-cases (a.dirty && leb a.save_at r.now)) [
      | inl e ↦ elim (Bool-cases r.saves) [ inl k ↦ rw (e, k) | inr k ↦ rw (e, k) ]
      | inr e ↦ rw e
    ]

    lab_keeps : stop_of (tick_lab na ra map_vk translate ms sec r a) ≡ stop_of a
    unfolding apply_configs
    lab_keeps = elim (Bool-cases (a.lab_run_active && ltb a.lab_run_base r.runs_completed)) [
      | inl e ↦ rw e
      | inr e ↦ rw e
    ]

    status_keeps : stop_of (tick_status na ra map_vk translate ms sec r a) ≡ stop_of a
    status_keeps = elim (Bool-cases (ltb a.status_until r.now)) [ inl e ↦ rw e | inr e ↦ rw e ]

    capture_keeps : stop_of (tick_capture na ra map_vk translate ms sec r a) ≡ stop_of a
    unfolding set_status cancel_capture
    capture_keeps =
        elim (Bool-cases (
          is_capturing na ra map_vk translate ms sec a.capture_target
          && ltb a.capture_deadline r.now)) [ inl e ↦ rw e | inr e ↦ rw e ]

    health_check_keeps : stop_of (health_check na ra map_vk translate ms sec r a) ≡ stop_of a
    unfolding health_check
    health_check_keeps = elim (Bool-cases (hook_lost na ra map_vk translate ms sec r a)) [
      | inl e ↦ rw e
      | inr e ↦ rw e
    ]

  health_keeps :
      (r : TickReading) (a : App na ra)
      → stop_of (tick_health na ra map_vk translate ms sec r a) ≡ stop_of a
  health_keeps r a = elim (Bool-cases (ltb (sec 2) (r.now - a.last_health))) [
    | inl e ↦ rw e (health_check_keeps r (record a { last_health = r.now }))
    | inr e ↦ rw e
  ]

  tick_keeps :
      (r : TickReading) (a : App na ra)
      → stop_of (tick na ra map_vk translate ms sec r a) ≡ stop_of a
  unfolding tick
  tick_keeps r a =
      let a1 = tick_save na ra map_vk translate ms sec r a in
      let a2 = tick_lab na ra map_vk translate ms sec r a1 in
      let a3 = tick_status na ra map_vk translate ms sec r a2 in
      let a4 = tick_capture na ra map_vk translate ms sec r a3 in
      health_keeps r a4 ∙ capture_keeps r a3 ∙ status_keeps r a2 ∙ lab_keeps r a1 ∙ save_keeps r a

  -- The emergency stop is not Left Mouse alone.
  abbrev pub HasSafeStop : App na ra → Type 0
  HasSafeStop a = is_plain_left (stop_of a) ≡ false

  bind_captured-HasSafeStop :
      (now : ℕ) (o : Option KeyChord) (a : App na ra)
      → HasSafeStop a
      → HasSafeStop (bind_captured na ra map_vk translate ms sec now o a).0
  unfolding bind profile_changed apply_configs set_status change_active
  bind_captured-HasSafeStop now none a h = h
  bind_captured-HasSafeStop now (some c) a h = by_target a.capture_target
    where
      by_target :
          (t : CaptureTarget)
          → HasSafeStop
              (bind na ra map_vk translate ms sec now c t
                (record a { captured = none; capture_target = no_target })).0
      by_target no_target = h
      by_target for_trigger = h
      by_target for_action = h
      by_target for_emergency = elim (Bool-cases (is_plain_left c)) [
        | inl e ↦ rw e h
        | inr e ↦ rw e e
      ]

  select_keeps :
      (now : ℕ) (n : Text) (a : App na ra)
      → stop_of (select_profile na ra map_vk translate ms sec now n a) ≡ stop_of a
  unfolding select_profile profile_changed apply_configs
  select_keeps now n a =
      elim (Bool-cases (set_active na ra a.store.profiles a.store.settings.active_profile n).1) [
        | inl e ↦ rw e
        | inr e ↦ rw e
      ]

  posted_keeps :
      (b : Bool) (a : App na ra) (e : Effect na ra)
      → stop_of (if b then a else tell na ra a e) ≡ stop_of a
  posted_keeps true a e = refl
  posted_keeps false a e = refl

  pad_keeps :
      (on : Bool) (w : ℕ) (a : App na ra)
      → stop_of (open_pad na ra map_vk translate ms sec on w a).0 ≡ stop_of a
  unfolding open_pad apply_configs
  pad_keeps true w a = refl
  pad_keeps false w a = refl

  arm_keeps :
      (on : Bool) (a : App na ra) → stop_of (arm na ra map_vk translate ms sec on a) ≡ stop_of a
  unfolding arm
  arm_keeps true a = refl
  arm_keeps false a = refl

  test_keeps :
      (limits : RunLimits) (w runs : ℕ) (a : App na ra)
      → stop_of (start_test na ra map_vk translate ms sec limits w runs a) ≡ stop_of a
  unfolding start_test apply_configs
  test_keeps limits w runs a = elim (Bool-cases (a.pad_window == 0)) [
    | inl e ↦ rw e (pad_keeps true w a)
    | inr e ↦ rw e
  ]

  perform-HasSafeStop :
      (o : Operation na ra) (a : App na ra)
      → LeavesEmergency o
      → HasSafeStop a
      → HasSafeStop (perform na ra map_vk translate ms sec o a)
  unfolding settings_changed profile_changed apply_configs change_active set_status pad_closed stop
      emergency set_ui_window set_lab_observe set_accept_bench_tag set_test_target set_pad_exempt
      begin_capture cancel_capture on_captured on_emergency on_gate_changed apply_captured
  perform-HasSafeStop (edit_profile now f) a l h = h
  perform-HasSafeStop (edit_settings now f) a l h = ap is_plain_left (l a.store.settings) ∙ h
  perform-HasSafeStop (choose_profile now n) a l h = ap is_plain_left (select_keeps now n a) ∙ h
  perform-HasSafeStop (ticks r) a l h = ap is_plain_left (tick_keeps r a) ∙ h
  perform-HasSafeStop (arms on) a l h = ap is_plain_left (arm_keeps on a) ∙ h
  perform-HasSafeStop (opens_pad on w) a l h = ap is_plain_left (pad_keeps on w a) ∙ h
  perform-HasSafeStop (starts_test limits w runs) a l h =
      ap is_plain_left (test_keeps limits w runs a) ∙ h
  perform-HasSafeStop user_closes_pad a l h = h
  perform-HasSafeStop stops a l h = h
  perform-HasSafeStop gate_changes a l h =
      ap is_plain_left (posted_keeps (a.ui_window == 0) a post_gate) ∙ h
  perform-HasSafeStop halts_by_trigger a l h =
      ap is_plain_left (posted_keeps (a.ui_window == 0) (tell na ra a halt_all) post_emergency) ∙ h
  perform-HasSafeStop (halts now) a l h = h
  perform-HasSafeStop (begins_capture now t) a l h = h
  perform-HasSafeStop cancels_capture a l h = h
  perform-HasSafeStop (applies_captured now) a l h = bind_captured-HasSafeStop now a.captured a h
  perform-HasSafeStop (captures c) a l h =
      ap is_plain_left
        (posted_keeps (a.ui_window == 0) (record a { captured = some c }) post_captured)
      ∙ h
  perform-HasSafeStop (sets_window w) a l h = h
  perform-HasSafeStop (sets_test_target w) a l h = h
  perform-HasSafeStop (sets_lab_observe on) a l h = h
  perform-HasSafeStop (sets_bench_tag on) a l h = h
  perform-HasSafeStop (sets_pad_exempt on) a l h = h

  -- Where the emergency stop is not Left Mouse alone, it is not after any sequence of operations that
  -- change it at most by a capture, whatever chords are captured.
  pub perform_all-HasSafeStop :
      (os : List (Operation na ra)) (a : App na ra)
      → All LeavesEmergency os
      → HasSafeStop a
      → HasSafeStop (perform_all na ra map_vk translate ms sec os a)
  unfolding perform_all
  perform_all-HasSafeStop [] a l h = h
  perform_all-HasSafeStop (o ∷ os) a l h =
      perform_all-HasSafeStop os (perform na ra map_vk translate ms sec o a) l.1
        (perform-HasSafeStop o a l.0 h)
