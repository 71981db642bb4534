-- ===== src/Profiles/Store.antt =====
-- The file of profiles: `ProfileStore::save` and `load` of src/profiles/Profile.cpp, as far as the
-- text of profiles.json goes, and the names and the choice of a profile.
use infinity_clicker.Base.{
  ℕ, zero, suc, ◌+◌, Bool, true, false, ◌&&◌, ◌||◌, not, if◌then◌else◌, ltb, ◌==◌, List, [], ◌∷◌,
  ◌++◌, Option, none, some, ℤ, pos, reverse,
}
use infinity_clicker.Json.{
  Text, codes, text_eq, NumArith, Value, Items, null, string, array, object, no_items, item, items,
  set, set_member,
}
use infinity_clicker.Json.Lexer.{Parsed, ok, failed}
use infinity_clicker.Json.Parser.{parse}
use infinity_clicker.Json.Writer.{stringify}
use infinity_clicker.Str.{trim, is_empty_text}
use infinity_clicker.Input.KeyChord.{KeyChord}
use infinity_clicker.Profiles.Chord.{natural, empty_object}
use infinity_clicker.Profiles.Profile.{RateArith, Profile, to_json, from_json, value_at}
pub mod RoundTrip
pub mod Free
pub mod Names
pub mod Defaults
pub mod Load
pub mod Sound
pub mod Saved

module _ (na : NumArith) (ra : RateArith na) where
  abbrev pub items_of : (KeyChord → Text) → List (Profile na ra) → Items na
  items_of chord_name [] = no_items
  items_of chord_name (p ∷ ps) = item (to_json na ra chord_name p) (items_of chord_name ps)

  unfoldable pub root_of : (KeyChord → Text) → List (Profile na ra) → Value na
  unfolding set_member
  root_of chord_name ps =
      let format = set na (empty_object na) (codes "format") (string (codes "infclick-profiles")) in
      let version = set na format (codes "version") (natural na 1) in
      set na version (codes "profiles") (array (items_of chord_name ps))

  -- What `save` writes to profiles.json.
  unfoldable pub save_text : (KeyChord → Text) → List (Profile na ra) → Text
  save_text chord_name ps = stringify na (root_of chord_name ps) true

  abbrev pub profiles_from : (ℕ → ℕ) → Items na → List (Profile na ra)
  profiles_from map_vk no_items = []
  profiles_from map_vk (item v xs) = from_json na ra map_vk v ∷ profiles_from map_vk xs

  -- What `load` makes of the text of profiles.json, and whether the text is sound.
  abbrev pub loaded : (ℕ → ℕ) → Parsed (Value na) → List (Profile na ra) × Bool
  loaded map_vk (ok v rest) =
      (profiles_from map_vk (items na (value_at na ra v (codes "profiles"))), true)
  loaded map_vk (failed e rest) = ([], false)

  unfoldable pub load_text : (ℕ → ℕ) → Text → List (Profile na ra) × Bool
  load_text map_vk text = loaded map_vk (parse na text)

  abbrev pub has_name : List (Profile na ra) → Text → Bool
  has_name [] n = false
  has_name (p ∷ ps) n = text_eq p.name n || has_name ps n

  -- The loop of `uniqueName`, `n` rounds to go; `numbered base i` is "%s (%d)".
  unfoldable pub try_names : (Text → ℕ → Text) → List (Profile na ra) → Text → ℕ → ℕ → Text
  try_names numbered ps base zero i = base ++ codes " *"
  try_names numbered ps base (suc n) i =
      let later = try_names numbered ps base n (i + 1) in
      if has_name ps (numbered base i) then later else numbered base i

  unfoldable pub unique_name : (Text → ℕ → Text) → List (Profile na ra) → Text → Text
  unique_name numbered ps base =
      if has_name ps base then try_names numbered ps base 9998 2 else base

  unfoldable pub renamed : Profile na ra → Text → Profile na ra
  renamed p n = record p { name = n }

  -- A name of spaces only becomes "Profile".
  abbrev pub name_or_usual : Profile na ra → Profile na ra
  name_or_usual p = if is_empty_text (trim p.name) then renamed p (codes "Profile") else p

  -- The inner loop of `load` on names: `p` stands between `before` and `after`, and is still to be
  -- compared with `qs`.
  unfoldable pub rename_past :
      (Text → ℕ → Text)
      → List (Profile na ra)
      → List (Profile na ra)
      → Profile na ra
      → List (Profile na ra)
      → Profile na ra
  rename_past numbered before [] p after = p
  rename_past numbered before (q ∷ qs) p after =
      let fresh = renamed p (unique_name numbered (before ++ p ∷ after) p.name) in
      rename_past numbered before qs (if text_eq q.name p.name then fresh else p) after

  -- The outer loop, past `before`.
  unfoldable pub fix_names :
      (Text → ℕ → Text) → List (Profile na ra) → List (Profile na ra) → List (Profile na ra)
  fix_names numbered before [] = before
  fix_names numbered before (p ∷ after) =
      fix_names numbered (before ++ rename_past numbered before before (name_or_usual p) after ∷ [])
        after

  -- The profile whose name is the active one, else the first.
  abbrev pub active_from : List (Profile na ra) → Text → ℕ → Option ℕ
  active_from [] n i = none
  active_from (p ∷ ps) n i = if text_eq p.name n then some i else active_from ps n (i + 1)

  -- `activeIndex`; `none` is -1.
  unfoldable pub active_index : List (Profile na ra) → Text → Option ℕ
  active_index [] n = none
  active_index (p ∷ ps) n = or_first (active_from (p ∷ ps) n 0)
    where
      or_first : Option ℕ → Option ℕ
      or_first none = some 0
      or_first (some i) = some i

  -- `setActive`: the new active name, and whether there is such a profile.
  unfoldable pub set_active : List (Profile na ra) → Text → Text → Text × Bool
  set_active ps active n = if has_name ps n then (n, true) else (active, false)
