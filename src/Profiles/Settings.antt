-- ===== src/Profiles/Settings.antt =====
-- `AppSettings` of src/profiles/Profile.h and its JSON in src/profiles/Profile.cpp.
use infinity_clicker.Base.{
  ℕ, ◌≤◌, ◌≡◌, refl, arith, Bool, true, false, ◌||◌, if◌then◌else◌, leb, Option, none, some, ℤ, pos,
  negsuc, to_signed, IsSigned, to_signed32_same, clamp_int, clamp_int_bounds,
}
use infinity_clicker.Json.{
  Text, codes, text_eq, NumArith, Value, bool, number, string, find_member, set_member, set, find,
  get_bool, get_int, get_string,
}
use infinity_clicker.Input.KeyChord.{KeyChord, chord_key, valid}
use infinity_clicker.Profiles.Chord.{
  IsDouble, IsStorable, natural, empty_object, chord_to_json, chord_from_json,
  chord_from_json-to_json,
}
use infinity_clicker.Profiles.Action.{clamp-natural}
use infinity_clicker.Profiles.Profile.{RateArith, value_at}

pub record AppSettings : Type 0 where
  pub active_profile : Text
  pub emergency : KeyChord
  pub arm_on_launch : Bool
  pub start_minimized : Bool
  pub minimize_to_tray : Bool
  pub close_to_tray : Bool
  pub pause_on_own_window : Bool
  pub accept_injected_triggers : Bool
  pub file_logging : Bool
  pub debug_logging : Bool
  pub guardian : Bool
  pub always_on_top : Bool
  pub language : Text
  pub ui_layout : ℕ
  pub window_x : ℤ
  pub window_y : ℤ
  pub window_w : ℕ
  pub window_h : ℕ

-- `INT32_MIN`
abbrev pub int32_min : ℤ
int32_min = negsuc 2_147_483_647

-- The members' initial values; F12 with Ctrl and Shift stops everything.
unfoldable pub default_settings : (ℕ → ℕ) → AppSettings
default_settings map_vk = record {
  active_profile = codes "Default";
  emergency = chord_key map_vk 0x7B 3;
  arm_on_launch = true;
  start_minimized = false;
  minimize_to_tray = true;
  close_to_tray = false;
  pause_on_own_window = true;
  accept_injected_triggers = false;
  file_logging = true;
  debug_logging = false;
  guardian = true;
  always_on_top = false;
  language = codes "auto";
  ui_layout = 2;
  window_x = int32_min;
  window_y = int32_min;
  window_w = 720;
  window_h = 552;
}

abbrev pub known_language : Text → Text
known_language l = if text_eq l (codes "en") || text_eq l (codes "ru") then l else codes "auto"

-- `int64_t(a) >= b`, for `b` that is not negative
abbrev pub at_least : ℤ → ℕ → Bool
at_least (pos n) b = leb b n
at_least (negsuc n) b = false

-- The settings that their JSON holds whole.
pub record IsSettled (s : AppSettings) : Type 0 where
  pub emergency_valid : valid s.emergency ≡ true
  pub emergency_kept : IsStorable s.emergency
  pub language_known : known_language s.language ≡ s.language
  pub layout_current : s.ui_layout ≡ 2
  pub x_fits : IsSigned 32 s.window_x
  pub y_fits : IsSigned 32 s.window_y
  pub w_range : (620 ≤ s.window_w) × (s.window_w ≤ 4000)
  pub h_range : (480 ≤ s.window_h) × (s.window_h ≤ 4000)

module _ (na : NumArith) (ra : RateArith na) where
  unfoldable pub settings_to_json : (KeyChord → Text) → AppSettings → Value na
  unfolding set_member
  settings_to_json chord_name s =
      let v0 = set na (empty_object na) (codes "activeProfile") (string s.active_profile) in
      let v1 = set na v0 (codes "emergencyStop") (chord_to_json na chord_name s.emergency) in
      let v2 = set na v1 (codes "armOnLaunch") (bool s.arm_on_launch) in
      let v3 = set na v2 (codes "startMinimized") (bool s.start_minimized) in
      let v4 = set na v3 (codes "minimizeToTray") (bool s.minimize_to_tray) in
      let v5 = set na v4 (codes "closeToTray") (bool s.close_to_tray) in
      let v6 = set na v5 (codes "pauseOnOwnWindow") (bool s.pause_on_own_window) in
      let v7 = set na v6 (codes "acceptInjectedTriggers") (bool s.accept_injected_triggers) in
      let v8 = set na v7 (codes "fileLogging") (bool s.file_logging) in
      let v9 = set na v8 (codes "debugLogging") (bool s.debug_logging) in
      let v10 = set na v9 (codes "guardian") (bool s.guardian) in
      let v11 = set na v10 (codes "alwaysOnTop") (bool s.always_on_top) in
      let v12 = set na v11 (codes "language") (string s.language) in
      let v13 = set na v12 (codes "uiLayout") (natural na s.ui_layout) in
      let w0 = set na (empty_object na) (codes "x") (number (na.of_int s.window_x)) in
      let w1 = set na w0 (codes "y") (number (na.of_int s.window_y)) in
      let w2 = set na w1 (codes "w") (natural na s.window_w) in
      let w = set na w2 (codes "h") (natural na s.window_h) in set na v13 (codes "window") w

  -- The chord of the emergency stop changes only to a valid one.
  abbrev pub emergency_or : Option (Value na) → KeyChord → KeyChord
  emergency_or none c = c
  emergency_or (some v) c = let read = chord_from_json na v in if valid read then read else c

  unfoldable pub settings_from_json : (ℕ → ℕ) → Value na → AppSettings
  unfolding find_member default_settings
  settings_from_json map_vk v =
      let s = default_settings map_vk in
      let w = value_at na ra v (codes "window") in
      let layout = to_signed 32 (get_int na v (codes "uiLayout") (pos 1)) in
      let sized = at_least layout s.ui_layout in
      let width = clamp_int 620 4000 (get_int na w (codes "w") (pos 720)) in
      let height = clamp_int 480 4000 (get_int na w (codes "h") (pos 552)) in
      record {
        active_profile = get_string na v (codes "activeProfile") s.active_profile;
        emergency = emergency_or (find na v (codes "emergencyStop")) s.emergency;
        arm_on_launch = get_bool na v (codes "armOnLaunch") s.arm_on_launch;
        start_minimized = get_bool na v (codes "startMinimized") s.start_minimized;
        minimize_to_tray = get_bool na v (codes "minimizeToTray") s.minimize_to_tray;
        close_to_tray = get_bool na v (codes "closeToTray") s.close_to_tray;
        pause_on_own_window = get_bool na v (codes "pauseOnOwnWindow") s.pause_on_own_window;
        accept_injected_triggers =
            get_bool na v (codes "acceptInjectedTriggers") s.accept_injected_triggers;
        file_logging = get_bool na v (codes "fileLogging") s.file_logging;
        debug_logging = get_bool na v (codes "debugLogging") s.debug_logging;
        guardian = get_bool na v (codes "guardian") s.guardian;
        always_on_top = get_bool na v (codes "alwaysOnTop") s.always_on_top;
        language = known_language (get_string na v (codes "language") (codes "auto"));
        ui_layout = s.ui_layout;
        window_x = to_signed 32 (get_int na w (codes "x") int32_min);
        window_y = to_signed 32 (get_int na w (codes "y") int32_min);
        window_w = if sized then width else s.window_w;
        window_h = if sized then height else s.window_h;
      }

  emergency_or-valid :
      (o : Option (Value na)) (c : KeyChord) → valid c ≡ true → valid (emergency_or o c) ≡ true
  emergency_or-valid none c h = h
  emergency_or-valid (some v) c h = ground arith

  sized_bounds :
      (sized : Bool) (lo hi usual : ℕ) (z : ℤ)
      → lo ≤ usual
      → usual ≤ hi
      → let x = if sized then clamp_int lo hi z else usual in (lo ≤ x) × (x ≤ hi)
  sized_bounds true lo hi usual z l h = clamp_int_bounds lo hi z (omega arith)
  sized_bounds false lo hi usual z l h = (l, h)

  -- Whatever JSON the settings are made from, there is a chord that stops everything, and the window
  -- is neither too small nor too large.
  pub settings_from_json-valid :
      (map_vk : ℕ → ℕ) (v : Value na)
      → let s = settings_from_json map_vk v in
        (valid s.emergency ≡ true)
        × ((620 ≤ s.window_w) × (s.window_w ≤ 4000))
        × ((480 ≤ s.window_h) × (s.window_h ≤ 4000))
  unfolding settings_from_json chord_key
  settings_from_json-valid map_vk v = (
    emergency_or-valid (find na v (codes "emergencyStop")) (default_settings map_vk).emergency refl,
    sized_bounds _ 620 4000 720 _ (omega arith) (omega arith),
    sized_bounds _ 480 4000 552 _ (omega arith) (omega arith),
  )

  to_int_same : (z : ℤ) → IsDouble na → IsSigned 32 z → na.to_int (na.of_int z) ≡ z
  to_int_same (pos n) d h = d.exact_pos n (omega arith)
  to_int_same (negsuc n) d h = d.exact_neg n (omega arith)

  -- Settings that are valid and in range are read back from their JSON.
  pub settings_from_json-to_json :
      (map_vk : ℕ → ℕ) (chord_name : KeyChord → Text) (s : AppSettings)
      → IsDouble na
      → IsSettled s
      → settings_from_json map_vk (settings_to_json chord_name s) ≡ s
  unfolding settings_from_json settings_to_json to_signed
  settings_from_json-to_json map_vk chord_name s d k = ground (
    arith,
    chord_from_json-to_json na chord_name s.emergency d k.emergency_kept,
    d.exact_pos 2 (omega arith),
    to_int_same s.window_x d k.x_fits,
    to_int_same s.window_y d k.y_fits,
    to_signed32_same s.window_x k.x_fits,
    to_signed32_same s.window_y k.y_fits,
    clamp-natural na 620 4000 s.window_w d k.w_range.0 k.w_range.1 (omega arith),
    clamp-natural na 480 4000 s.window_h d k.h_range.0 k.h_range.1 (omega arith),
  )
