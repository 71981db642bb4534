-- ===== src/Profiles/Store/Saved.antt =====
-- `ProfileStore::load` of src/profiles/Profile.cpp gives back what `save` wrote.
use infinity_clicker.Base.{
  ℕ, ◌^◌, ◌<◌, ◌≤◌, ◌≡◌, refl, ap, arith, true, List, [], ◌∷◌, length, some, ℤ, pos, negsuc,
  IsSigned,
}
use infinity_clicker.Json.{Text, NumArith, number}
use infinity_clicker.Json.RoundTrip.{parse-stringify}
use infinity_clicker.Json.RoundTrip.Exact.{nesting, IsExact}
use infinity_clicker.Input.KeyChord.{KeyChord}
use infinity_clicker.Profiles.Chord.{IsDouble}
use infinity_clicker.Profiles.Profile.{RateArith, Profile}
use infinity_clicker.Profiles.Settings.{
  AppSettings, IsSettled, settings_to_json, settings_from_json-to_json,
}
use infinity_clicker.Profiles.Store.{has_name, save_text}
use infinity_clicker.Profiles.Store.Names.{HaveNames, fix_names_kept}
use infinity_clicker.Profiles.Store.RoundTrip.{
  IsPrinting, AreKept, chord_to_json-IsExact, load_text-save_text,
}
use infinity_clicker.Profiles.Store.Load.{
  Store, save_settings, load_settings, or_defaults, with_active, load,
}

-- A negative number prints as what reads back as it.
pub record IsPrintingSigned (na : NumArith) : Type 0 where
  pub prints_negative : (n : ℕ) → n < 2 ^ 53 → IsExact na (number (na.of_int (negsuc n)))

module _ (na : NumArith) (ra : RateArith na) where
  -- A store that `save` keeps whole.
  pub record IsSavable (s : Store na ra) : Type 0 where
    pub some_profile : 1 ≤ length s.profiles
    pub profiles_named : HaveNames na ra s.profiles
    pub profiles_kept : AreKept na ra s.profiles
    pub active_named : has_name na ra s.profiles s.settings.active_profile ≡ true
    pub settings_settled : IsSettled s.settings

  of_int-IsExact :
      (z : ℤ)
      → IsPrinting na
      → IsPrintingSigned na
      → IsSigned 32 z
      → IsExact na (number (na.of_int z))
  of_int-IsExact (pos n) p q h = p.prints n (omega arith)
  of_int-IsExact (negsuc n) p q h = q.prints_negative n (omega arith)

  settings_to_json-IsExact :
      (chord_name : KeyChord → Text) (s : AppSettings)
      → IsPrinting na
      → IsPrintingSigned na
      → IsSettled s
      → IsExact na (settings_to_json na ra chord_name s)
        × (nesting na (settings_to_json na ra chord_name s) ≤ 2)
  unfolding settings_to_json
  settings_to_json-IsExact chord_name s p q k =
      let (chord, shallow) =
        chord_to_json-IsExact na chord_name s.emergency.device s.emergency refl p
          k.emergency_kept.kept k.emergency_kept.four_mods in
      let (w0, w1) = k.w_range in
      let (h0, h1) = k.h_range in
      (
        (
          _,
          (
            chord,
            (
              _,
              (
                _,
                (
                  _,
                  (
                    _,
                    (
                      _,
                      (
                        _,
                        (
                          _,
                          (
                            _,
                            (
                              _,
                              (
                                _,
                                (
                                  _,
                                  (
                                    p.prints s.ui_layout (omega (arith, k.layout_current)),
                                    (
                                      (
                                        of_int-IsExact s.window_x p q k.x_fits,
                                        (
                                          of_int-IsExact s.window_y p q k.y_fits,
                                          (
                                            p.prints s.window_w (omega arith),
                                            (p.prints s.window_h (omega arith), _),
                                          ),
                                        ),
                                      ),
                                      _,
                                    ),
                                  ),
                                ),
                              ),
                            ),
                          ),
                        ),
                      ),
                    ),
                  ),
                ),
              ),
            ),
          ),
        ),
        omega arith,
      )

  load_settings-save :
      (map_vk : ℕ → ℕ) (chord_name : KeyChord → Text) (s0 s : AppSettings)
      → IsDouble na
      → IsPrinting na
      → IsPrintingSigned na
      → IsSettled s
      → load_settings na ra map_vk s0 (some (save_settings na ra chord_name s)) ≡ (s, true)
  unfolding load_settings save_settings
  load_settings-save map_vk chord_name s0 s d p q k =
      let (exact, depth) = settings_to_json-IsExact chord_name s p q k in
      let v = settings_to_json na ra chord_name s in
      rw (parse-stringify na v true exact (omega arith))
        (ap (λ t. (t, true)) (settings_from_json-to_json na ra map_vk chord_name s d k))

  or_defaults_same :
      (map_vk : ℕ → ℕ) (translate : Text → Text) (ps : List (Profile na ra))
      → 1 ≤ length ps
      → or_defaults na ra map_vk translate ps ≡ ps
  or_defaults_same map_vk translate [] h = absurd (omega arith)
  or_defaults_same map_vk translate (p ∷ ps) h = refl

  with_active_same :
      (ps : List (Profile na ra)) (s : AppSettings)
      → has_name na ra ps s.active_profile ≡ true
      → with_active na ra ps s ≡ s
  with_active_same [] s h = refl
  with_active_same (p ∷ ps) s h = rw h refl

  -- What `save` writes, `load` gives back, whatever settings there were before: all the profiles in
  -- their order and all the settings, and both texts are sound. The store has a profile, the names
  -- differ, are not blank and include the active one, and profiles and settings are such as their
  -- JSON holds.
  pub load-save :
      (map_vk : ℕ → ℕ) (translate : Text → Text) (numbered : Text → ℕ → Text)
      (chord_name : KeyChord → Text) (s0 : AppSettings) (s : Store na ra)
      → IsDouble na
      → IsPrinting na
      → IsPrintingSigned na
      → IsSavable s
      → load na ra map_vk translate numbered s0
          (some (save_settings na ra chord_name s.settings))
          (some (save_text na ra chord_name s.profiles))
        ≡ (s, true)
  unfolding load
  load-save map_vk translate numbered chord_name s0 s d p q k =
      rw
        (
          load_settings-save map_vk chord_name s0 s.settings d p q k.settings_settled,
          load_text-save_text na ra map_vk chord_name s.profiles d p k.profiles_kept,
          or_defaults_same map_vk translate s.profiles k.some_profile,
          fix_names_kept na ra numbered s.profiles k.profiles_named,
          with_active_same s.profiles s.settings k.active_named,
        )
        refl
