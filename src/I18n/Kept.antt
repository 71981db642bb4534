-- ===== src/I18n/Kept.antt =====
-- Every entry of the table of src/core/I18n.cpp keeps what its English text holds.
use Prim.Native.String.{String}
use infinity_clicker.Base.{true, some, List, [], ◌∷◌, ◌≡◌, refl, Option-cases, inl, inr, All, ◌∙◌}
use infinity_clicker.I18n.{Lang, en, ru, tr, k_ru, find_in}
use infinity_clicker.I18n.Table.{Entry, find_entry}
use infinity_clicker.I18n.Core.{
  app, key_chord, auto_test, bench, test_pad, profile, main_window, tray,
}
use infinity_clicker.I18n.AdvancedTop.{advanced_view_top}
use infinity_clicker.I18n.AdvancedMiddle.{advanced_view_middle}
use infinity_clicker.I18n.AdvancedBottom.{advanced_view_bottom}
use infinity_clicker.I18n.Settings.{settings_view}
use infinity_clicker.I18n.Views.{views}
use infinity_clicker.I18n.Widgets.{widgets, dynamic_names}
use infinity_clicker.I18n.Placeholders.{Keeps, Keeps-refl, all_keep, find_entry-Keeps}

app-all_keep : all_keep app ≡ true
unfolding app all_keep
app-all_keep = refl

key_chord-all_keep : all_keep key_chord ≡ true
unfolding key_chord all_keep
key_chord-all_keep = refl

auto_test-all_keep : all_keep auto_test ≡ true
unfolding auto_test all_keep
auto_test-all_keep = refl

bench-all_keep : all_keep bench ≡ true
unfolding bench all_keep
bench-all_keep = refl

test_pad-all_keep : all_keep test_pad ≡ true
unfolding test_pad all_keep
test_pad-all_keep = refl

profile-all_keep : all_keep profile ≡ true
unfolding profile all_keep
profile-all_keep = refl

advanced_view_top-all_keep : all_keep advanced_view_top ≡ true
unfolding advanced_view_top all_keep
advanced_view_top-all_keep = refl

advanced_view_middle-all_keep : all_keep advanced_view_middle ≡ true
unfolding advanced_view_middle all_keep
advanced_view_middle-all_keep = refl

advanced_view_bottom-all_keep : all_keep advanced_view_bottom ≡ true
unfolding advanced_view_bottom all_keep
advanced_view_bottom-all_keep = refl

main_window-all_keep : all_keep main_window ≡ true
unfolding main_window all_keep
main_window-all_keep = refl

settings_view-all_keep : all_keep settings_view ≡ true
unfolding settings_view all_keep
settings_view-all_keep = refl

tray-all_keep : all_keep tray ≡ true
unfolding tray all_keep
tray-all_keep = refl

views-all_keep : all_keep views ≡ true
unfolding views all_keep
views-all_keep = refl

widgets-all_keep : all_keep widgets ≡ true
unfolding widgets all_keep
widgets-all_keep = refl

dynamic_names-all_keep : all_keep dynamic_names ≡ true
unfolding dynamic_names all_keep
dynamic_names-all_keep = refl

abbrev AllKeep : List (List Entry) → Type 0
AllKeep sections = All (λ section. all_keep section ≡ true) sections

k_ru-AllKeep : AllKeep k_ru
unfolding k_ru
k_ru-AllKeep = (
  app-all_keep,
  (
    key_chord-all_keep,
    (
      auto_test-all_keep,
      (
        bench-all_keep,
        (
          test_pad-all_keep,
          (
            profile-all_keep,
            (
              advanced_view_top-all_keep,
              (
                advanced_view_middle-all_keep,
                (
                  advanced_view_bottom-all_keep,
                  (
                    main_window-all_keep,
                    (
                      settings_view-all_keep,
                      (
                        tray-all_keep,
                        (views-all_keep, (widgets-all_keep, (dynamic_names-all_keep, _))),
                      ),
                    ),
                  ),
                ),
              ),
            ),
          ),
        ),
      ),
    ),
  ),
)

find_in-Keeps :
    (text : String) (sections : List (List Entry)) {found : String}
    → AllKeep sections
    → find_in text sections ≡ some found
    → Keeps text found
unfolding find_in
find_in-Keeps text [] h e = cc
find_in-Keeps text (section ∷ rest) {found} h e = elim (Option-cases (find_entry text section)) [
  | inl miss ↦ find_in-Keeps text rest h.1 (rw miss at e)
  | inr (shown, hit) ↦ find_entry-Keeps text section h.0 (hit ∙ (rw hit at e))
]

-- In each language a text that is not the null pointer has a text to show: it holds the
-- placeholders of printf of the given text, in the same order, and is not empty if that one is not.
pub tr-Keeps :
    (lang : Lang) (text : String)
    → (shown : String) × (tr lang (some text) ≡ some shown) × Keeps text shown
unfolding tr
tr-Keeps en text = (text, refl, Keeps-refl text)
tr-Keeps ru text = elim (Option-cases (find_in text k_ru)) [
  | inl miss ↦ (text, rw miss, Keeps-refl text)
  | inr (found, hit) ↦ (found, rw hit, find_in-Keeps text k_ru k_ru-AllKeep hit)
]
