-- ===== src/App/Picker.antt =====
-- `keyPicker` of src/ui/Widgets.cpp, the list from which a chord is picked, and its use for the
-- emergency stop in src/ui/AdvancedView.cpp. A pick is one click; the drawing is left out.
use infinity_clicker.Base.{ℕ, Bool, true, false, ◌&&◌, ◌||◌, if◌then◌else◌, ltb, ◌≡◌}
use infinity_clicker.Json.{Text, NumArith}
use infinity_clicker.Input.KeyChord.{
  KeyChord, MouseButton, left, wheel_up, button_code, chord_mouse, chord_key, valid,
}
use infinity_clicker.Profiles.Profile.{RateArith}
use infinity_clicker.App.{App, apply_configs}
use infinity_clicker.App.Capture.{with_emergency, is_plain_left, profile_changed}
use infinity_clicker.App.Operations.{settings_changed}

-- A box of the modifiers, a button of the mouse, or a key of the list.
pub data Pick : Type 0 where
  modifiers : ℕ → Pick
  button : MouseButton → Pick
  key : ℕ → Bool → Pick

-- The chord after a pick, and whether it has changed.
unfoldable pub key_picker : (ℕ → ℕ) → Bool → Bool → KeyChord → Pick → KeyChord × Bool
key_picker map_vk allow_mouse allow_wheel c (modifiers m) = (record c { mods = m }, true)
key_picker map_vk allow_mouse allow_wheel c (button b) =
    if allow_mouse && (allow_wheel || ltb (button_code b) (button_code wheel_up))
    then (chord_mouse b c.mods, true)
    else (c, false)
key_picker map_vk allow_mouse allow_wheel c (key vk ext) =
    (record (chord_key map_vk vk c.mods) { extended = ext }, true)

module _ (na : NumArith) (ra : RateArith na) (map_vk : ℕ → ℕ) (translate : Text → Text)
    (ms sec : ℕ → ℕ) where
  unfoldable pub pick_emergency : ℕ → Pick → App na ra → App na ra
  unfolding key_picker settings_changed
  pick_emergency now p a =
      let (e, changed) = key_picker map_vk true false a.store.settings.emergency p in
      if changed && valid e
      then settings_changed na ra map_vk translate ms sec now
          (with_emergency na ra map_vk translate ms sec e a)
      else a

  -- Where the emergency stop has no modifiers, picking Left Mouse from the list makes Left Mouse alone
  -- the emergency stop.
  pub pick_emergency-left :
      (now : ℕ) (a : App na ra)
      → a.store.settings.emergency.mods ≡ 0
      → is_plain_left (pick_emergency now (button left) a).store.settings.emergency ≡ true
  unfolding pick_emergency button_code chord_mouse key_picker settings_changed profile_changed
      apply_configs
  pick_emergency-left now a h = rw h
