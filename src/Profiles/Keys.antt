-- ===== src/Profiles/Keys.antt =====
-- The words for the settings of a profile in src/profiles/Profile.cpp.
use infinity_clicker.Base.{◌≡◌, refl, if◌then◌else◌}
use infinity_clicker.Json.{Text, codes, text_eq}
use infinity_clicker.Modes.{TriggerMode, hold, toggle, burst, count, duration}
use infinity_clicker.Trigger.{TriggerBackend, hook, raw_input}
use infinity_clicker.Engine.{LatePolicy, skip, catch_up}

pub data Precision : Type 0 where
  eco standard ultra : Precision

pub data ThreadPrio : Type 0 where
  normal above_normal highest time_critical mmcss : ThreadPrio

pub data RateUnit : Type 0 where
  per_second interval_ms interval_us : RateUnit

abbrev pub mode_key : TriggerMode → Text
mode_key hold = codes "hold"
mode_key toggle = codes "toggle"
mode_key burst = codes "burst"
mode_key count = codes "count"
mode_key duration = codes "duration"

abbrev pub parse_mode : Text → TriggerMode
parse_mode s =
    if text_eq s (codes "hold")
    then hold
    else if text_eq s (codes "burst")
    then burst
    else if text_eq s (codes "count")
    then count
    else if text_eq s (codes "duration")
    then duration
    else toggle

abbrev pub precision_key : Precision → Text
precision_key eco = codes "eco"
precision_key standard = codes "standard"
precision_key ultra = codes "ultra"

abbrev pub parse_precision : Text → Precision
parse_precision s =
    if text_eq s (codes "eco") then eco else if text_eq s (codes "ultra") then ultra else standard

abbrev pub prio_key : ThreadPrio → Text
prio_key normal = codes "normal"
prio_key above_normal = codes "above_normal"
prio_key highest = codes "highest"
prio_key time_critical = codes "time_critical"
prio_key mmcss = codes "mmcss"

abbrev pub parse_prio : Text → ThreadPrio
parse_prio s =
    if text_eq s (codes "normal")
    then normal
    else if text_eq s (codes "above_normal")
    then above_normal
    else if text_eq s (codes "time_critical")
    then time_critical
    else if text_eq s (codes "mmcss")
    then mmcss
    else highest

abbrev pub rate_key : RateUnit → Text
rate_key per_second = codes "cps"
rate_key interval_ms = codes "interval_ms"
rate_key interval_us = codes "interval_us"

abbrev pub parse_rate : Text → RateUnit
parse_rate s =
    if text_eq s (codes "interval_ms")
    then interval_ms
    else if text_eq s (codes "interval_us")
    then interval_us
    else per_second

abbrev pub backend_key : TriggerBackend → Text
backend_key raw_input = codes "rawinput"
backend_key hook = codes "hook"

abbrev pub parse_backend : Text → TriggerBackend
parse_backend s = if text_eq s (codes "rawinput") then raw_input else hook

abbrev pub late_key : LatePolicy → Text
late_key catch_up = codes "catchup"
late_key skip = codes "skip"

abbrev pub parse_late : Text → LatePolicy
parse_late s = if text_eq s (codes "skip") then skip else catch_up

pub mode_back : (m : TriggerMode) → parse_mode (mode_key m) ≡ m
mode_back hold = refl
mode_back toggle = refl
mode_back burst = refl
mode_back count = refl
mode_back duration = refl

pub precision_back : (p : Precision) → parse_precision (precision_key p) ≡ p
precision_back eco = refl
precision_back standard = refl
precision_back ultra = refl

pub prio_back : (p : ThreadPrio) → parse_prio (prio_key p) ≡ p
prio_back normal = refl
prio_back above_normal = refl
prio_back highest = refl
prio_back time_critical = refl
prio_back mmcss = refl

pub rate_back : (u : RateUnit) → parse_rate (rate_key u) ≡ u
rate_back per_second = refl
rate_back interval_ms = refl
rate_back interval_us = refl

pub backend_back : (b : TriggerBackend) → parse_backend (backend_key b) ≡ b
backend_back hook = refl
backend_back raw_input = refl

pub late_back : (l : LatePolicy) → parse_late (late_key l) ≡ l
late_back skip = refl
late_back catch_up = refl
