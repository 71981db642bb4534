-- ===== src/Profiles/Store/Load.antt =====
-- `ProfileStore::save` and `load` of src/profiles/Profile.cpp as a whole: two texts, the settings and
-- the profiles. `none` is a file that is missing or cannot be read.
use infinity_clicker.Base.{
  ℕ, Bool, true, false, ◌&&◌, if◌then◌else◌, List, [], ◌∷◌, Option, none, some,
}
use infinity_clicker.Json.{Text, NumArith, Value}
use infinity_clicker.Json.Lexer.{Parsed, ok, failed}
use infinity_clicker.Json.Parser.{parse}
use infinity_clicker.Json.Writer.{stringify}
use infinity_clicker.Input.KeyChord.{KeyChord}
use infinity_clicker.Profiles.Profile.{RateArith, Profile}
use infinity_clicker.Profiles.Settings.{AppSettings, settings_to_json, settings_from_json}
use infinity_clicker.Profiles.Store.{has_name, load_text, fix_names}
use infinity_clicker.Profiles.Store.Defaults.{defaults}

module _ (na : NumArith) (ra : RateArith na) where
  pub record Store : Type 0 where
    pub profiles : List (Profile na ra)
    pub settings : AppSettings

  -- What `save` writes to settings.json.
  unfoldable pub save_settings : (KeyChord → Text) → AppSettings → Text
  save_settings chord_name s = stringify na (settings_to_json na ra chord_name s) true

  abbrev pub settings_read : (ℕ → ℕ) → AppSettings → Parsed (Value na) → AppSettings × Bool
  settings_read map_vk s (ok v rest) = (settings_from_json na ra map_vk v, true)
  settings_read map_vk s (failed e rest) = (s, false)

  unfoldable pub load_settings : (ℕ → ℕ) → AppSettings → Option Text → AppSettings × Bool
  load_settings map_vk s none = (s, true)
  load_settings map_vk s (some text) = settings_read map_vk s (parse na text)

  abbrev pub load_profiles : (ℕ → ℕ) → Option Text → List (Profile na ra) × Bool
  load_profiles map_vk none = ([], true)
  load_profiles map_vk (some text) = load_text na ra map_vk text

  abbrev pub or_defaults : (ℕ → ℕ) → (Text → Text) → List (Profile na ra) → List (Profile na ra)
  or_defaults map_vk translate [] = defaults na ra map_vk translate
  or_defaults map_vk translate (p ∷ ps) = p ∷ ps

  -- The active profile is one of the profiles; the first, if it was not.
  abbrev pub with_active : List (Profile na ra) → AppSettings → AppSettings
  with_active [] s = s
  with_active (p ∷ ps) s =
      if has_name na ra (p ∷ ps) s.active_profile then s else record s { active_profile = p.name }

  -- `load`, with the settings there were before: the new state and whether all that was read is sound.
  unfoldable pub load :
      (ℕ → ℕ)
      → (Text → Text)
      → (Text → ℕ → Text)
      → AppSettings
      → Option Text
      → Option Text
      → Store × Bool
  load map_vk translate numbered s settings_text profiles_text =
      let (read, sound1) = load_settings map_vk s settings_text in
      let (ps, sound2) = load_profiles map_vk profiles_text in
      let named = fix_names na ra numbered [] (or_defaults map_vk translate ps) in
      (record { profiles = named; settings = with_active named read }, sound1 && sound2)
