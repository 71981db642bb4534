-- ===== src/I18n.antt =====
-- src/core/I18n.cpp: the language of the user interface and the lookup of a translation. A text is
-- a sequence of code points; the code keeps it in UTF-8.
use Prim.Native.String.{String}
use Prim.Native.String
use text.Mathlib.Text.{◌==◌ as str_eq}
use infinity_clicker.Base.{
  ℕ, ◌%◌, Bool, true, false, ◌&&◌, ◌||◌, Option, none, some, if◌then◌else◌, leb, ◌==◌, List, [],
  ◌∷◌, ◌++◌,
}
use infinity_clicker.Json.{Text, codes}
pub mod Table
pub mod Core
pub mod AdvancedTop
pub mod AdvancedMiddle
pub mod AdvancedBottom
pub mod Settings
pub mod Views
pub mod Widgets
pub mod Placeholders
pub mod Kept
use infinity_clicker.I18n.Table.{Entry, find_entry}
use infinity_clicker.I18n.Core.{
  app, key_chord, auto_test, bench, test_pad, profile, main_window, tray,
}
use infinity_clicker.I18n.AdvancedTop.{advanced_view_top}
use infinity_clicker.I18n.AdvancedMiddle.{advanced_view_middle}
use infinity_clicker.I18n.AdvancedBottom.{advanced_view_bottom}
use infinity_clicker.I18n.Settings.{settings_view}
use infinity_clicker.I18n.Views.{views}
use infinity_clicker.I18n.Widgets.{widgets, dynamic_names}

pub data Lang : Type 0 where
  en ru : Lang

-- The primary language identifiers for which the interface starts in Russian: Russian, Ukrainian,
-- Belarusian, Kazakh, Kyrgyz, Uzbek, Armenian, Azeri, Georgian, Tajik and Turkmen.
abbrev pub is_russian_ui : ℕ → Bool
is_russian_ui id =
    id == 0x19
    || id == 0x22
    || id == 0x23
    || id == 0x3f
    || id == 0x40
    || id == 0x43
    || id == 0x2b
    || id == 0x2c
    || id == 0x37
    || id == 0x28
    || id == 0x42

-- `GetUserDefaultUILanguage` is a parameter; the primary language is in its low ten bits.
unfoldable pub system_lang : ℕ → Lang
system_lang id = if is_russian_ui (id % 1024) then ru else en

unfoldable pub resolve : ℕ → String → Lang
resolve id setting =
    if str_eq setting "ru" then ru else if str_eq setting "en" then en else system_lang id

-- The whole table, in the order of the source.
unfoldable pub k_ru : List (List Entry)
k_ru =
    app ∷ key_chord ∷ auto_test ∷ bench ∷ test_pad ∷ profile ∷ advanced_view_top
    ∷ advanced_view_middle ∷ advanced_view_bottom ∷ main_window ∷ settings_view ∷ tray ∷ views
    ∷ widgets ∷ dynamic_names ∷ []

-- What was found, or else the other.
abbrev pub or_else : Option String → Option String → Option String
or_else (some found) other = some found
or_else none other = other

-- The lookup goes through the sections in their order.
unfoldable pub find_in : String → List (List Entry) → Option String
unfolding find_entry
find_in text [] = none
find_in text (section ∷ rest) = or_else (find_entry text section) (find_in text rest)

-- `tr`; `none` is the null pointer.
unfoldable pub tr : Lang → Option String → Option String
unfolding find_in k_ru
tr lang none = none
tr en (some text) = some text
tr ru (some text) = or_else (find_in text k_ru) (some text)
