-- ===== src/Profiles/Store/Sound.antt =====
-- What `ProfileStore::load` of src/profiles/Profile.cpp gives, whatever the files hold.
use infinity_clicker.Base.{
  ℕ, ◌+◌, ◌<◌, ◌≤◌, ◌≡◌, refl, arith, Bool, true, false, if◌then◌else◌, Bool-cases, inl, inr, List,
  [], ◌∷◌, ◌++◌, length, length-append, All, All-append, Option, none, some, pos,
}
use infinity_clicker.Json.{Text, text_eq, NumArith, Value, Items, no_items, item}
use infinity_clicker.Json.Lexer.{Parsed, ok, failed}
use infinity_clicker.Json.Parser.{parse}
use infinity_clicker.Input.KeyChord.{valid}
use infinity_clicker.Profiles.Profile.{RateArith, Profile, clamp_rate, IsInRange}
use infinity_clicker.Profiles.Stored.{IsOrdered, from_json-IsInRange}
use infinity_clicker.Profiles.Settings.{AppSettings, settings_from_json-valid}
use infinity_clicker.Profiles.Store.{
  has_name, load_text, loaded, profiles_from, renamed, name_or_usual, rename_past, fix_names,
}
use infinity_clicker.Profiles.Store.Defaults.{new_profile, defaults}
use infinity_clicker.Profiles.Store.Free.{text_eq_refl}
use infinity_clicker.Profiles.Store.Names.{
  has_only_blanks, IsNumbering, HaveNames, fix_names-HaveNames,
}
use infinity_clicker.Profiles.Store.Load.{
  Store, settings_read, load_settings, load_profiles, or_defaults, with_active, load,
}

module _ (na : NumArith) (ra : RateArith na) where
  -- What every load gives: profiles under names of their own, one of which is the active one.
  pub record IsLoaded (s : Store na ra) : Type 0 where
    pub named : HaveNames na ra s.profiles
    pub numbers_in_range : All (IsInRange na ra) s.profiles
    pub active_there : has_name na ra s.profiles s.settings.active_profile ≡ true
    pub emergency_there : valid s.settings.emergency ≡ true

  with_active_there :
      (ps : List (Profile na ra)) (s : AppSettings)
      → 1 ≤ length ps
      → has_name na ra ps (with_active na ra ps s).active_profile ≡ true
  with_active_there [] s h = absurd (omega arith)
  with_active_there (p ∷ ps) s h = elim (Bool-cases (has_name na ra (p ∷ ps) s.active_profile)) [
    | inl e ↦ rw e e
    | inr e ↦ rw e (rw (text_eq_refl p.name) refl)
  ]

  length-fix_names :
      (numbered : Text → ℕ → Text) (before ps : List (Profile na ra))
      → length before + length ps ≤ length (fix_names na ra numbered before ps)
  unfolding fix_names
  length-fix_names numbered before [] = omega arith
  length-fix_names numbered before (p ∷ after) =
      let r = rename_past na ra numbered before before (name_or_usual na ra p) after in
      let more = length-fix_names numbered (before ++ r ∷ []) after in
      omega (arith, more, length-append before (r ∷ []))

  length-or_defaults :
      (map_vk : ℕ → ℕ) (translate : Text → Text) (ps : List (Profile na ra))
      → length ps < 9998
      → (1 ≤ length (or_defaults na ra map_vk translate ps))
        × (length (or_defaults na ra map_vk translate ps) < 9998)
  unfolding defaults
  length-or_defaults map_vk translate [] h = omega arith
  length-or_defaults map_vk translate (p ∷ ps) h = omega arith

  pub renamed-IsInRange :
      (p : Profile na ra) (n : Text) → IsInRange na ra p → IsInRange na ra (renamed na ra p n)
  unfolding renamed
  renamed-IsInRange p n r = record {
    action_in_range = r.action_in_range;
    burst_range = r.burst_range;
    fixed_range = r.fixed_range;
    duration_range = r.duration_range;
    batch_range = r.batch_range;
    inflight_range = r.inflight_range;
    rate_range = r.rate_range;
  }

  either_IsInRange :
      (b : Bool) (p q : Profile na ra)
      → IsInRange na ra p
      → IsInRange na ra q
      → IsInRange na ra (if b then p else q)
  either_IsInRange true p q hp hq = hp
  either_IsInRange false p q hp hq = hq

  rename_past-IsInRange :
      (numbered : Text → ℕ → Text) (before qs : List (Profile na ra)) (p : Profile na ra)
      (after : List (Profile na ra))
      → IsInRange na ra p
      → IsInRange na ra (rename_past na ra numbered before qs p after)
  unfolding rename_past
  rename_past-IsInRange numbered before [] p after r = r
  rename_past-IsInRange numbered before (q ∷ qs) p after r =
      rename_past-IsInRange numbered before qs _ after
        (either_IsInRange (text_eq q.name p.name) _ p (renamed-IsInRange p _ r) r)

  fix_names-IsInRange :
      (numbered : Text → ℕ → Text) (before ps : List (Profile na ra))
      → All (IsInRange na ra) before
      → All (IsInRange na ra) ps
      → All (IsInRange na ra) (fix_names na ra numbered before ps)
  unfolding fix_names
  fix_names-IsInRange numbered before [] b h = b
  fix_names-IsInRange numbered before (p ∷ after) b h =
      let named = either_IsInRange (has_only_blanks p.name) _ p (renamed-IsInRange p _ h.0) h.0 in
      let r = rename_past na ra numbered before before (name_or_usual na ra p) after in
      fix_names-IsInRange numbered (before ++ r ∷ []) after
        (All-append (IsInRange na ra) before r b
          (rename_past-IsInRange numbered before before _ after named))
        h.1

  -- The rates of the first profiles are in range.
  pub record AreRates : Type 0 where
    pub rates_keep :
        (n : ℕ) → 10 ≤ n → n ≤ 1000 → clamp_rate na ra (na.of_int (pos n)) ≡ na.of_int (pos n)

  defaults-IsInRange :
      (map_vk : ℕ → ℕ) (translate : Text → Text)
      → AreRates
      → All (IsInRange na ra) (defaults na ra map_vk translate)
  unfolding defaults new_profile
  defaults-IsInRange map_vk translate r = ground (
    arith,
    r.rates_keep 20 (omega arith) (omega arith),
    r.rates_keep 16 (omega arith) (omega arith),
    r.rates_keep 10 (omega arith) (omega arith),
    r.rates_keep 100 (omega arith) (omega arith),
    r.rates_keep 1000 (omega arith) (omega arith),
    r.rates_keep 25 (omega arith) (omega arith),
  )

  profiles_from-IsInRange :
      (map_vk : ℕ → ℕ) (xs : Items na)
      → IsOrdered na ra
      → All (IsInRange na ra) (profiles_from na ra map_vk xs)
  profiles_from-IsInRange map_vk no_items o = _
  profiles_from-IsInRange map_vk (item v xs) o =
      (from_json-IsInRange na ra map_vk v o, profiles_from-IsInRange map_vk xs o)

  loaded-IsInRange :
      (map_vk : ℕ → ℕ) (r : Parsed (Value na))
      → IsOrdered na ra
      → All (IsInRange na ra) (loaded na ra map_vk r).0
  loaded-IsInRange map_vk (ok v rest) o = profiles_from-IsInRange map_vk _ o
  loaded-IsInRange map_vk (failed e rest) o = _

  or_defaults-IsInRange :
      (map_vk : ℕ → ℕ) (translate : Text → Text) (ps : List (Profile na ra))
      → AreRates
      → All (IsInRange na ra) ps
      → All (IsInRange na ra) (or_defaults na ra map_vk translate ps)
  or_defaults-IsInRange map_vk translate [] r h = defaults-IsInRange map_vk translate r
  or_defaults-IsInRange map_vk translate (p ∷ ps) r h = h

  load_profiles-IsInRange :
      (map_vk : ℕ → ℕ) (text : Option Text)
      → IsOrdered na ra
      → All (IsInRange na ra) (load_profiles na ra map_vk text).0
  unfolding load_text
  load_profiles-IsInRange map_vk none o = _
  load_profiles-IsInRange map_vk (some text) o = loaded-IsInRange map_vk (parse na text) o

  with_active-valid :
      (ps : List (Profile na ra)) (s : AppSettings)
      → valid s.emergency ≡ true
      → valid (with_active na ra ps s).emergency ≡ true
  with_active-valid [] s h = h
  with_active-valid (p ∷ ps) s h = elim (Bool-cases (has_name na ra (p ∷ ps) s.active_profile)) [
    | inl e ↦ rw e h
    | inr e ↦ rw e h
  ]

  settings_read-valid :
      (map_vk : ℕ → ℕ) (s : AppSettings) (r : Parsed (Value na))
      → valid s.emergency ≡ true
      → valid (settings_read na ra map_vk s r).0.emergency ≡ true
  settings_read-valid map_vk s (ok v rest) h = (settings_from_json-valid na ra map_vk v).0
  settings_read-valid map_vk s (failed e rest) h = h

  load_settings-valid :
      (map_vk : ℕ → ℕ) (s : AppSettings) (text : Option Text)
      → valid s.emergency ≡ true
      → valid (load_settings na ra map_vk s text).0.emergency ≡ true
  unfolding load_settings
  load_settings-valid map_vk s none h = h
  load_settings-valid map_vk s (some text) h = settings_read-valid map_vk s (parse na text) h

  -- Whatever the two files hold, missing and corrupt ones too, loading gives profiles whose names
  -- differ and are not blank and whose numbers are in range, one of which is the active one, and an
  -- emergency stop that is a valid chord, if the settings had one before. The profiles of the file
  -- are fewer than the 9998 numbers that are tried for a name.
  pub load-IsLoaded :
      (map_vk : ℕ → ℕ) (translate : Text → Text) (numbered : Text → ℕ → Text) (s : AppSettings)
      (settings_text profiles_text : Option Text)
      → IsNumbering numbered
      → IsOrdered na ra
      → AreRates
      → valid s.emergency ≡ true
      → length (load_profiles na ra map_vk profiles_text).0 < 9998
      → IsLoaded (load na ra map_vk translate numbered s settings_text profiles_text).0
  unfolding load
  load-IsLoaded map_vk translate numbered s settings_text profiles_text nb o r h l =
      let ps = or_defaults na ra map_vk translate (load_profiles na ra map_vk profiles_text).0 in
      let (some_profile, few) = length-or_defaults map_vk translate _ l in
      record {
        named = fix_names-HaveNames na ra numbered [] ps nb (omega (arith, few)) _;
        numbers_in_range = fix_names-IsInRange numbered [] ps _ (
            or_defaults-IsInRange map_vk translate _ r
              (load_profiles-IsInRange map_vk profiles_text o));
        active_there =
            with_active_there (fix_names na ra numbered [] ps) _
              (omega (arith, length-fix_names numbered [] ps));
        emergency_there =
            with_active-valid (fix_names na ra numbered [] ps)
              (load_settings na ra map_vk s settings_text).0
              (load_settings-valid map_vk s settings_text h);
      }
