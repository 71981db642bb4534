-- ===== src/App/Late.antt =====
-- A capture that takes too long ends at a tick of src/app/App.cpp.
use infinity_clicker.Base.{
  ℕ, ◌-◌, ◌<◌, false, ◌&&◌, ltb, leb, ◌==◌, ◌≡◌, refl, arith, ap, ◌∙◌, Bool-cases, inl, inr,
}
use infinity_clicker.Json.{Text, NumArith}
use infinity_clicker.Input.KeyChord.{KeyChord}
use infinity_clicker.Profiles.Profile.{RateArith}
use infinity_clicker.App.{
  App, CaptureTarget, no_target, for_trigger, for_action, for_emergency, apply_configs,
}
use infinity_clicker.App.Capture.{
  set_status, cancel_capture, bind, apply_captured, on_captured, is_capturing,
}
use infinity_clicker.App.Operations.{
  TickReading, save_now, health_check, hook_lost, tick, tick_save, tick_lab, tick_status,
  tick_capture, tick_health,
}

-- What is captured for, and until when.
record Capturing : Type 0 where
  target : CaptureTarget
  deadline : ℕ

module _ (na : NumArith) (ra : RateArith na) (map_vk : ℕ → ℕ) (translate : Text → Text)
    (ms sec : ℕ → ℕ) where
  abbrev capturing : App na ra → Capturing
  capturing a = record { target = a.capture_target; deadline = a.capture_deadline }

  not_target :
      (t : CaptureTarget) → is_capturing na ra map_vk translate ms sec t ≡ false → t ≡ no_target
  not_target no_target e = refl
  not_target for_trigger e = cc
  not_target for_action e = cc
  not_target for_emergency e = cc

  module _ (r : TickReading) (a : App na ra) where
    capturing-tick_save : capturing (tick_save na ra map_vk translate ms sec r a) ≡ capturing a
    unfolding save_now set_status
    capturing-tick_save = elim (Bool-cases (a.dirty && leb a.save_at r.now)) [
      | inl e ↦ elim (Bool-cases r.saves) [ inl k ↦ rw (e, k) | inr k ↦ rw (e, k) ]
      | inr e ↦ rw e
    ]

    capturing-tick_lab : capturing (tick_lab na ra map_vk translate ms sec r a) ≡ capturing a
    unfolding apply_configs
    capturing-tick_lab =
        elim (Bool-cases (a.lab_run_active && ltb a.lab_run_base r.runs_completed)) [
          | inl e ↦ rw e
          | inr e ↦ rw e
        ]

    capturing-tick_status : capturing (tick_status na ra map_vk translate ms sec r a) ≡ capturing a
    capturing-tick_status = elim (Bool-cases (ltb a.status_until r.now)) [
      | inl e ↦ rw e
      | inr e ↦ rw e
    ]

    capturing-health_check :
        capturing (health_check na ra map_vk translate ms sec r a) ≡ capturing a
    unfolding health_check
    capturing-health_check = elim (Bool-cases (hook_lost na ra map_vk translate ms sec r a)) [
      | inl e ↦ rw e
      | inr e ↦ rw e
    ]

    tick_capture_late :
        a.capture_deadline < r.now
        → (tick_capture na ra map_vk translate ms sec r a).capture_target ≡ no_target
    unfolding set_status cancel_capture
    tick_capture_late late =
        elim (Bool-cases (
          is_capturing na ra map_vk translate ms sec a.capture_target
          && ltb a.capture_deadline r.now)) [
            | inl e ↦ rw e
            | inr e ↦
                let idle : is_capturing na ra map_vk translate ms sec a.capture_target ≡ false =
                  ground (arith, e) in
                rw e (not_target a.capture_target idle)
          ]

  capturing-tick_health :
      (r : TickReading) (a : App na ra)
      → capturing (tick_health na ra map_vk translate ms sec r a) ≡ capturing a
  capturing-tick_health r a = elim (Bool-cases (ltb (sec 2) (r.now - a.last_health))) [
    | inl e ↦ rw e (capturing-health_check r (record a { last_health = r.now }))
    | inr e ↦ rw e
  ]

  tick_late :
      (r : TickReading) (a : App na ra)
      → a.capture_deadline < r.now
      → (tick na ra map_vk translate ms sec r a).capture_target ≡ no_target
  unfolding tick
  tick_late r a late =
      let a1 = tick_save na ra map_vk translate ms sec r a in
      let a2 = tick_lab na ra map_vk translate ms sec r a1 in
      let a3 = tick_status na ra map_vk translate ms sec r a2 in
      let same : capturing a3 ≡ capturing a =
        capturing-tick_status r a2 ∙ capturing-tick_lab r a1 ∙ capturing-tick_save r a in
      ap (λ (c : Capturing). c.target)
        (capturing-tick_health r (tick_capture na ra map_vk translate ms sec r a3))
      ∙ tick_capture_late r a3 (omega (arith, late, ap (λ (c : Capturing). c.deadline) same))

  -- A tick after the deadline of a capture ends it: a chord that the trigger thread reports after that
  -- binds nothing, and leaves the profiles and the settings as they are.
  pub tick-apply_captured :
      (r : TickReading) (a : App na ra) (c : KeyChord) (now : ℕ)
      → a.capture_deadline < r.now
      → let b = tick na ra map_vk translate ms sec r a in
        let (bound, done) =
          apply_captured na ra map_vk translate ms sec now
            (on_captured na ra map_vk translate ms sec c b) in
        (bound.store ≡ b.store) × (bound.capture_target ≡ no_target) × (done ≡ false)
  unfolding apply_captured on_captured bind
  tick-apply_captured r a c now late =
      elim (Bool-cases ((tick na ra map_vk translate ms sec r a).ui_window == 0)) [
        | inl e ↦ rw (e, tick_late r a late) (refl, refl, refl)
        | inr e ↦ rw (e, tick_late r a late) (refl, refl, refl)
      ]
