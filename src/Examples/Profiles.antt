-- ===== src/Examples/Profiles.antt =====
-- A store of two profiles, saved and loaded, at whole numbers in place of floating point.
use Prim.Native.Nat.{ℕ}
use infinity_clicker.Base.{
  ◌+◌, ◌≤◌, ◌<◌, ◌≡◌, refl, ap, ◌∙◌, arith, Bool, true, false, ltb, List, [], ◌∷◌, ◌++◌, reverse,
  length-append, some, length, replicate, ℤ, pos, negsuc,
}
use mathlib.Core.List.{reverse-cons}
use infinity_clicker.Json.{Text, codes, find_member}
use infinity_clicker.Json.Lexer.{skip, parse_string, read_string, string_step}
use infinity_clicker.Json.Parser.{parse_value, parse_key, parse_colon, run_parser, parse}
use infinity_clicker.Input.KeyChord.{
  KeyChord, valid, chord_key, chord_mouse, left, button_code, vk_to_scan,
}
use infinity_clicker.Profiles.Chord.{IsDouble, IsStorable}
use infinity_clicker.Profiles.Profile.{RateArith, Profile, clamp_rate, from_json, IsInRange}
use infinity_clicker.Profiles.Stored.{IsOrdered}
use infinity_clicker.Profiles.Settings.{default_settings}
use infinity_clicker.Profiles.Store.{
  save_text, load_text, fix_names, rename_past, unique_name, try_names, renamed,
}
use infinity_clicker.Str.{drop_blanks, is_blank, is_empty_text}
use infinity_clicker.Profiles.Store.Defaults.{new_profile}
use infinity_clicker.Profiles.Store.Names.{has_only_blanks, IsNumbering}
use infinity_clicker.Profiles.Store.RoundTrip.{IsPrinting, IsKept, AreKept}
use infinity_clicker.Profiles.Store.Load.{Store, load_profiles, load, load_settings, save_settings}
use infinity_clicker.Profiles.Store.Sound.{AreRates, IsLoaded, renamed-IsInRange, load-IsLoaded}
use infinity_clicker.Profiles.Store.Saved.{IsPrintingSigned, IsSavable, load-save}
use infinity_clicker.Examples.Json.{whole_numbers, number-IsExact, length-replicate}

abbrev pub less_int : ℤ → ℤ → Bool
less_int (pos a) (pos b) = ltb a b
less_int (pos a) (negsuc b) = false
less_int (negsuc a) (pos b) = true
less_int (negsuc a) (negsuc b) = ltb b a

abbrev pub whole_rates : RateArith whole_numbers
whole_rates = record { less = less_int; slowest = pos 1; fastest = pos 1_000_000; usual = pos 20 }

whole_numbers-IsDouble : IsDouble whole_numbers
whole_numbers-IsDouble = record { exact_pos = λ n l. refl; exact_neg = λ n l. refl }

whole_numbers-IsPrinting : IsPrinting whole_numbers
whole_numbers-IsPrinting = record { prints = λ n l. number-IsExact (pos n) }

whole_numbers-IsPrintingSigned : IsPrintingSigned whole_numbers
whole_numbers-IsPrintingSigned = record { prints_negative = λ n l. number-IsExact (negsuc n) }

whole_rates-IsOrdered : IsOrdered whole_numbers whole_rates
whole_rates-IsOrdered = record { slowest_irrefl = refl; fastest_irrefl = refl; in_order = refl }

whole_rates-AreRates : AreRates whole_numbers whole_rates
unfolding clamp_rate
whole_rates-AreRates = record { rates_keep = λ n l h. ground arith }

-- A keyboard layout where the scan code of a key is 1, and names that say nothing.
abbrev pub layout : ℕ → ℕ
layout vk = 1

abbrev no_name : KeyChord → Text
no_name c = []

-- "%s (%d)", with a tally for the number
abbrev numbered : Text → ℕ → Text
numbered base i = b'(' ∷ replicate i b'1' ++ b')' ∷ base

length-numbered : (base : Text) (i : ℕ) → length (numbered base i) ≡ i + (length base + 2)
length-numbered base i =
    omega (arith, length-append (replicate i b'1') (b')' ∷ base), length-replicate i b'1')

drop_blanks-append :
    (s : Text) (c : ℕ) → is_blank c ≡ false → is_empty_text (drop_blanks (s ++ c ∷ [])) ≡ false
drop_blanks-append [] c h = ground arith
drop_blanks-append (d ∷ s) c h = ground (arith, drop_blanks-append s c h)

append_full : (s : Text) (c : ℕ) → is_empty_text (s ++ c ∷ []) ≡ false
append_full [] c = refl
append_full (d ∷ s) c = refl

reverse_full : (s : Text) → is_empty_text s ≡ false → is_empty_text (reverse s) ≡ false
reverse_full [] h = absurd (cc)
reverse_full (c ∷ s) h = ap is_empty_text (reverse-cons c s) ∙ append_full (reverse s) c

bracket_full : (s : Text) → has_only_blanks (b'(' ∷ s) ≡ false
bracket_full s = reverse_full (drop_blanks (reverse (b'(' ∷ s))) (
    ap (λ t. is_empty_text (drop_blanks t)) (reverse-cons b'(' s)
    ∙ drop_blanks-append (reverse s) b'(' refl)

numbered-IsNumbering : IsNumbering numbered
numbered-IsNumbering = record {
  numbers_differ =
      λ base i j e. omega (arith, ap length e, length-numbered base i, length-numbered base j);
  never_blank = λ base i. bracket_full (replicate i b'1' ++ b')' ∷ base);
}

abbrev names_of : List (Profile whole_numbers whole_rates) → List Text
names_of [] = []
names_of (p ∷ ps) = p.name ∷ names_of ps

abbrev two_profiles : List (Profile whole_numbers whole_rates)
two_profiles =
    new_profile whole_numbers whole_rates layout
    ∷ renamed whole_numbers whole_rates (new_profile whole_numbers whole_rates layout)
        (codes "Game")
    ∷ []

abbrev store : Store whole_numbers whole_rates
store = record { profiles = two_profiles; settings = default_settings layout }

key-IsStorable :
    (vk mods : ℕ) → 0 < vk → vk ≤ 0xFE → mods < 16 → IsStorable (chord_key layout vk mods)
unfolding chord_key vk_to_scan
key-IsStorable vk mods l h m = record { kept = (l, h, omega arith); four_mods = m }

left-IsStorable : IsStorable (chord_mouse left 0)
unfolding chord_mouse button_code
left-IsStorable = record { kept = (omega arith, refl, refl); four_mods = omega arith }

new_profile-IsInRange :
    IsInRange whole_numbers whole_rates (new_profile whole_numbers whole_rates layout)
unfolding new_profile clamp_rate
new_profile-IsInRange = ground arith

two_profiles-AreKept : AreKept whole_numbers whole_rates two_profiles
unfolding new_profile renamed
two_profiles-AreKept =
    let trigger = key-IsStorable 0x75 0 (omega arith) (omega arith) (omega arith) in
    let kept : IsKept whole_numbers whole_rates (new_profile whole_numbers whole_rates layout) =
      record {
        trigger_kept = trigger;
        chord_kept = left-IsStorable;
        in_range = new_profile-IsInRange;
        rate_prints = number-IsExact (pos 20);
      } in
    (
      kept,
      (
        record {
          trigger_kept = trigger;
          chord_kept = left-IsStorable;
          in_range =
              renamed-IsInRange whole_numbers whole_rates
                (new_profile whole_numbers whole_rates layout) (codes "Game") new_profile-IsInRange;
          rate_prints = number-IsExact (pos 20);
        },
        _,
      ),
    )

store-IsSavable : IsSavable whole_numbers whole_rates store
unfolding new_profile renamed default_settings chord_key
store-IsSavable = record {
  some_profile = omega arith;
  profiles_named = (refl, refl, (refl, refl, _));
  profiles_kept = two_profiles-AreKept;
  active_named = refl;
  settings_settled = record {
    emergency_valid = refl;
    emergency_kept = key-IsStorable 0x7B 3 (omega arith) (omega arith) (omega arith);
    language_known = refl;
    layout_current = refl;
    x_fits = omega arith;
    y_fits = omega arith;
    w_range = omega arith;
    h_range = omega arith;
  };
}

load-save_example :
    load whole_numbers whole_rates layout
      (λ t. t)
      numbered
      (default_settings layout)
      (some (save_settings whole_numbers whole_rates no_name store.settings))
      (some (save_text whole_numbers whole_rates no_name store.profiles))
    ≡ (store, true)
load-save_example =
    load-save whole_numbers whole_rates layout (λ t. t) numbered no_name (default_settings layout)
      store whole_numbers-IsDouble whole_numbers-IsPrinting whole_numbers-IsPrintingSigned
      store-IsSavable

abbrev cut_off : Text
cut_off = codes "{\"language\": "

abbrev two_nameless : Text
two_nameless = codes "{\"profiles\": [{}, {}]}"

length-two_nameless :
    length (load_profiles whole_numbers whole_rates layout (some two_nameless)).0 ≡ 2
unfolding load_text parse run_parser parse_value skip parse_key parse_colon parse_string read_string
    string_step find_member
length-two_nameless = refl

default_settings-valid : valid (default_settings layout).emergency ≡ true
unfolding default_settings chord_key
default_settings-valid = refl

-- Two profiles without a name, and settings that are cut off.
load-IsLoaded_example :
    IsLoaded whole_numbers whole_rates
      (load whole_numbers whole_rates layout
        (λ t. t)
        numbered
        (default_settings layout)
        (some cut_off)
        (some two_nameless)).0
load-IsLoaded_example =
    load-IsLoaded whole_numbers whole_rates layout (λ t. t) numbered (default_settings layout)
      (some cut_off) (some two_nameless) numbered-IsNumbering whole_rates-IsOrdered
      whole_rates-AreRates default_settings-valid (omega (arith, length-two_nameless))

-- The second of the two gets a number.
names_example :
    names_of
      (load whole_numbers whole_rates layout
        (λ t. t)
        numbered
        (default_settings layout)
        (some cut_off)
        (some two_nameless)).0.profiles
    ≡ codes "Profile" ∷ numbered (codes "Profile") 2 ∷ []
unfolding load load_settings load_text parse run_parser parse_value skip parse_key parse_colon
    parse_string read_string string_step find_member fix_names rename_past renamed unique_name
    try_names from_json
names_example = refl
