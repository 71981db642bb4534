-- ===== src/App/InForce.antt =====
-- When the configurations in force are those of src/app/App.cpp's active profile, settings and
-- windows, and the operations that set them.
use infinity_clicker.Base.{
  ℕ, Bool, true, false, ◌&&◌, ltb, leb, ◌≡◌, ◌⊎◌, ◌-◌, refl, ap, Bool-cases, inl, inr, List, [],
  ◌∷◌,
}
use infinity_clicker.Json.{Text, NumArith}
use infinity_clicker.Profiles.Profile.{RateArith, Profile}
use infinity_clicker.Profiles.Store.{set_active}
use infinity_clicker.Profiles.Store.Defaults.{defaults, new_profile}
use infinity_clicker.Profiles.Store.Load.{Store, or_defaults}
use infinity_clicker.App.{
  App, apply_configs, settled, active, active_of, trigger_setup_of, engine_setup_of,
}
use infinity_clicker.App.Capture.{profile_changed, set_status, cancel_capture, is_capturing}
use infinity_clicker.App.Operations.{
  TickReading, select_profile, save_now, health_check, hook_lost, tick, with_active_name, tick_save,
  tick_lab, tick_status, tick_capture, tick_health,
}

module _ (na : NumArith) (ra : RateArith na) (map_vk : ℕ → ℕ) (translate : Text → Text)
    (ms sec : ℕ → ℕ) where
  -- The configurations that `applyConfigs` would set are set, for the window of the test pad when it
  -- last set them: it is the present one, unless the user has closed the pad since.
  pub record IsInForce (a : App na ra) : Type 0 where
    pub pad : ℕ
    pub pad_is : (pad ≡ a.pad_window) ⊎ (a.pad_window ≡ 0)
    pub trigger_is :
        a.trigger_setup ≡ trigger_setup_of na ra map_vk translate (record a { pad_window = pad })
    pub engine_is : a.engine_setup ≡ engine_setup_of na ra map_vk translate a

  or_defaults_idem :
      (ps : List (Profile na ra))
      → or_defaults na ra map_vk translate (or_defaults na ra map_vk translate ps)
        ≡ or_defaults na ra map_vk translate ps
  unfolding defaults
  or_defaults_idem [] = refl
  or_defaults_idem (p ∷ ps) = refl

  active-settled :
      (s : Store na ra)
      → active na ra map_vk translate (settled na ra map_vk translate s)
        ≡ active na ra map_vk translate s
  unfolding active
  active-settled s =
      ap (λ ps. active_of na ra (new_profile na ra map_vk) ps s.settings.active_profile)
        (or_defaults_idem s.profiles)

  pub apply_configs-IsInForce : (a : App na ra) → IsInForce (apply_configs na ra map_vk translate a)
  unfolding apply_configs trigger_setup_of engine_setup_of
  apply_configs-IsInForce a = record {
    pad = a.pad_window;
    pad_is = inl refl;
    trigger_is = rw (active-settled a.store);
    engine_is = rw (active-settled a.store);
  }

  pub profile_changed-IsInForce :
      (now : ℕ) (a : App na ra) → IsInForce (profile_changed na ra map_vk translate ms sec now a)
  unfolding profile_changed trigger_setup_of engine_setup_of
  profile_changed-IsInForce now a =
      let h = apply_configs-IsInForce a in
      record { pad = h.pad; pad_is = h.pad_is; trigger_is = h.trigger_is; engine_is = h.engine_is }

  pub select_profile-IsInForce :
      (now : ℕ) (n : Text) (a : App na ra)
      → IsInForce a
      → IsInForce (select_profile na ra map_vk translate ms sec now n a)
  unfolding select_profile
  select_profile-IsInForce now n a h =
      let found = set_active na ra a.store.profiles a.store.settings.active_profile n in
      elim (Bool-cases found.1) [
        | inl e ↦ rw e (
            profile_changed-IsInForce now
              (with_active_name na ra map_vk translate ms sec found.0 a))
        | inr e ↦ rw e h
      ]

  pub save_now-IsInForce :
      (now : ℕ) (saves : Bool) (a : App na ra)
      → IsInForce a
      → IsInForce (save_now na ra map_vk translate ms sec now saves a)
  unfolding save_now set_status trigger_setup_of engine_setup_of
  save_now-IsInForce now true a h = record {
    pad = h.pad;
    pad_is = h.pad_is;
    trigger_is = h.trigger_is;
    engine_is = h.engine_is;
  }
  save_now-IsInForce now false a h = record {
    pad = h.pad;
    pad_is = h.pad_is;
    trigger_is = h.trigger_is;
    engine_is = h.engine_is;
  }

  health_check-IsInForce :
      (r : TickReading) (a : App na ra)
      → IsInForce a
      → IsInForce (health_check na ra map_vk translate ms sec r a)
  unfolding health_check trigger_setup_of engine_setup_of
  health_check-IsInForce r a h = elim (Bool-cases (hook_lost na ra map_vk translate ms sec r a)) [
    | inl e ↦ rw e (record {
      pad = h.pad;
      pad_is = h.pad_is;
      trigger_is = h.trigger_is;
      engine_is = h.engine_is;
    })
    | inr e ↦ rw e (record {
      pad = h.pad;
      pad_is = h.pad_is;
      trigger_is = h.trigger_is;
      engine_is = h.engine_is;
    })
  ]

  module _ (r : TickReading) {a : App na ra} (h : IsInForce a) where
    tick_save-IsInForce : IsInForce (tick_save na ra map_vk translate ms sec r a)
    tick_save-IsInForce = elim (Bool-cases (a.dirty && leb a.save_at r.now)) [
      | inl e ↦ rw e (save_now-IsInForce r.now r.saves a h)
      | inr e ↦ rw e h
    ]

    tick_lab-IsInForce : IsInForce (tick_lab na ra map_vk translate ms sec r a)
    tick_lab-IsInForce =
        elim (Bool-cases (a.lab_run_active && ltb a.lab_run_base r.runs_completed)) [
          | inl e ↦
              rw e (apply_configs-IsInForce (record a { lab_run_active = false; test_target = 0 }))
          | inr e ↦ rw e h
        ]

    tick_status-IsInForce : IsInForce (tick_status na ra map_vk translate ms sec r a)
    unfolding trigger_setup_of engine_setup_of
    tick_status-IsInForce = elim (Bool-cases (ltb a.status_until r.now)) [
      | inl e ↦ rw e (record {
        pad = h.pad;
        pad_is = h.pad_is;
        trigger_is = h.trigger_is;
        engine_is = h.engine_is;
      })
      | inr e ↦ rw e h
    ]

    tick_capture-IsInForce : IsInForce (tick_capture na ra map_vk translate ms sec r a)
    unfolding trigger_setup_of engine_setup_of set_status cancel_capture
    tick_capture-IsInForce =
        elim (Bool-cases (
          is_capturing na ra map_vk translate ms sec a.capture_target
          && ltb a.capture_deadline r.now)) [
            | inl e ↦ rw e (record {
              pad = h.pad;
              pad_is = h.pad_is;
              trigger_is = h.trigger_is;
              engine_is = h.engine_is;
            })
            | inr e ↦ rw e h
          ]

    tick_health-IsInForce : IsInForce (tick_health na ra map_vk translate ms sec r a)
    unfolding trigger_setup_of engine_setup_of
    tick_health-IsInForce = elim (Bool-cases (ltb (sec 2) (r.now - a.last_health))) [
      | inl e ↦ rw e (
          health_check-IsInForce r (record a { last_health = r.now })
            (record {
              pad = h.pad;
              pad_is = h.pad_is;
              trigger_is = h.trigger_is;
              engine_is = h.engine_is;
            }))
      | inr e ↦ rw e h
    ]

  pub tick-IsInForce :
      (r : TickReading) (a : App na ra)
      → IsInForce a
      → IsInForce (tick na ra map_vk translate ms sec r a)
  unfolding tick
  tick-IsInForce r a h =
      let s = tick_lab-IsInForce r (tick_save-IsInForce r h) in
      tick_health-IsInForce r (tick_capture-IsInForce r (tick_status-IsInForce r s))
