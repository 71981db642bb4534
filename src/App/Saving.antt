-- ===== src/App/Saving.antt =====
-- What a tick of src/app/App.cpp does in time with a change: it hands it to the store to be saved.
use infinity_clicker.Base.{
  ℕ, ◌+◌, ◌-◌, ◌≤◌, some, Bool, true, false, ◌&&◌, ltb, leb, ◌≡◌, ◌⊎◌, refl, arith, Bool-cases, inl,
  inr, List, [], ◌∷◌, ◌++◌,
}
use infinity_clicker.Json.{Text, NumArith}
use infinity_clicker.Profiles.Profile.{RateArith, Profile}
use infinity_clicker.App.{
  App, Effect, save_store, reinstall_hooks, capture_off, apply_configs, not_saved,
  binding_cancelled,
}
use infinity_clicker.App.Capture.{profile_changed, set_status, cancel_capture, is_capturing}
use infinity_clicker.App.Operations.{
  TickReading, save_now, health_check, hook_lost, tick, tick_save, tick_lab, tick_status,
  tick_capture, tick_health,
}
use infinity_clicker.App.Sequence.{edited}

module _ (na : NumArith) (ra : RateArith na) where
  -- The effect is one of those that the application has told.
  abbrev pub IsTold : Effect na ra → List (Effect na ra) → Type 0
  IsTold e [] = ⊥
  IsTold e (d ∷ ds) = (d ≡ e) ⊎ IsTold e ds

  IsTold-later :
      (e d : Effect na ra) (ds : List (Effect na ra)) → IsTold e ds → IsTold e (ds ++ d ∷ [])
  IsTold-later e d [] h = absurd h
  IsTold-later e d (b ∷ ds) (inl p) = inl p
  IsTold-later e d (b ∷ ds) (inr h) = inr (IsTold-later e d ds h)

  IsTold-last : (e : Effect na ra) (ds : List (Effect na ra)) → IsTold e (ds ++ e ∷ [])
  IsTold-last e [] = inl refl
  IsTold-last e (b ∷ ds) = inr (IsTold-last e ds)

module _ (na : NumArith) (ra : RateArith na) (map_vk : ℕ → ℕ) (translate : Text → Text)
    (ms sec : ℕ → ℕ) where
  -- The effect has been told, and no change waits for a save.
  abbrev pub IsHanded : Effect na ra → App na ra → Type 0
  IsHanded e a = IsTold na ra e a.effects × (a.dirty ≡ false)

  -- The status says that a save failed, or that a capture has timed out after that.
  abbrev pub ShowsFailure : App na ra → Type 0
  ShowsFailure a = (a.status ≡ some not_saved) ⊎ (a.status ≡ some binding_cancelled)

  -- The status of a failed save, which is shown for six seconds.
  tick-ShowsFailure :
      (r : TickReading) (a : App na ra)
      → a.dirty ≡ true
      → a.save_at ≤ r.now
      → r.saves ≡ false
      → ShowsFailure (tick na ra map_vk translate ms sec r a)
  unfolding tick save_now set_status apply_configs health_check cancel_capture
  tick-ShowsFailure r a dirty due fails = ground (arith, dirty, fails)

  module _ (e : Effect na ra) (r : TickReading) (a : App na ra) (h : IsHanded e a) where
    lab-IsHanded : IsHanded e (tick_lab na ra map_vk translate ms sec r a)
    unfolding apply_configs
    lab-IsHanded = elim (Bool-cases (a.lab_run_active && ltb a.lab_run_base r.runs_completed)) [
      | inl p ↦ rw p h
      | inr p ↦ rw p h
    ]

    status-IsHanded : IsHanded e (tick_status na ra map_vk translate ms sec r a)
    status-IsHanded = elim (Bool-cases (ltb a.status_until r.now)) [
      | inl p ↦ rw p h
      | inr p ↦ rw p h
    ]

    capture-IsHanded : IsHanded e (tick_capture na ra map_vk translate ms sec r a)
    unfolding set_status cancel_capture
    capture-IsHanded =
        elim (Bool-cases (
          is_capturing na ra map_vk translate ms sec a.capture_target
          && ltb a.capture_deadline r.now)) [
            | inl p ↦ rw p (IsTold-later na ra e capture_off a.effects h.0, h.1)
            | inr p ↦ rw p h
          ]

    health_check-IsHanded : IsHanded e (health_check na ra map_vk translate ms sec r a)
    unfolding health_check
    health_check-IsHanded = elim (Bool-cases (hook_lost na ra map_vk translate ms sec r a)) [
      | inl p ↦ rw p (IsTold-later na ra e reinstall_hooks a.effects h.0, h.1)
      | inr p ↦ rw p h
    ]

  health-IsHanded :
      (e : Effect na ra) (r : TickReading) (a : App na ra)
      → IsHanded e a
      → IsHanded e (tick_health na ra map_vk translate ms sec r a)
  health-IsHanded e r a h = elim (Bool-cases (ltb (sec 2) (r.now - a.last_health))) [
    | inl p ↦ rw p (health_check-IsHanded e r (record a { last_health = r.now }) h)
    | inr p ↦ rw p h
  ]

  save_now-IsHanded :
      (now : ℕ) (saves : Bool) (a : App na ra)
      → IsHanded (save_store a.store) (save_now na ra map_vk translate ms sec now saves a)
  unfolding save_now set_status
  save_now-IsHanded now true a = (IsTold-last na ra (save_store a.store) a.effects, refl)
  save_now-IsHanded now false a = (IsTold-last na ra (save_store a.store) a.effects, refl)

  tick-IsHanded :
      (r : TickReading) (a : App na ra)
      → a.dirty ≡ true
      → a.save_at ≤ r.now
      → IsHanded (save_store a.store) (tick na ra map_vk translate ms sec r a)
  unfolding tick
  tick-IsHanded r a dirty due =
      let e : Effect na ra = save_store a.store in
      let go : (a.dirty && leb a.save_at r.now) ≡ true = ground (arith, dirty) in
      let saved : IsHanded e (tick_save na ra map_vk translate ms sec r a) =
        rw go (save_now-IsHanded r.now r.saves a) in
      let a1 = tick_save na ra map_vk translate ms sec r a in
      let a2 = tick_lab na ra map_vk translate ms sec r a1 in
      let a3 = tick_status na ra map_vk translate ms sec r a2 in
      let shown = status-IsHanded e r a2 (lab-IsHanded e r a1 saved) in
      health-IsHanded e r (tick_capture na ra map_vk translate ms sec r a3)
        (capture-IsHanded e r a3 shown)

  -- A tick 600 ms after an edit of the active profile, or later, hands the store with the edit to
  -- `ProfileStore::save`, and no change waits for a save then, whether that call succeeds or not; if
  -- it fails the status tells, or tells in the same tick that a capture has timed out.
  pub edited-IsHanded :
      (now : ℕ) (f : Profile na ra → Profile na ra) (a : App na ra) (r : TickReading)
      → now + ms 600 ≤ r.now
      → let b =
          profile_changed na ra map_vk translate ms sec now
            (edited na ra map_vk translate ms sec f a) in
        let c = tick na ra map_vk translate ms sec r b in
        IsHanded (save_store b.store) c × ((r.saves ≡ true) ⊎ ShowsFailure c)
  unfolding profile_changed
  edited-IsHanded now f a r late =
      let b =
        profile_changed na ra map_vk translate ms sec now
          (edited na ra map_vk translate ms sec f a) in
      (
        tick-IsHanded r b refl late,
        elim (Bool-cases r.saves) [
          | inl e ↦ inl e
          | inr e ↦ inr (tick-ShowsFailure r b refl late e)
        ],
      )
