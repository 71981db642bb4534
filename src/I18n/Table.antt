-- ===== src/I18n/Table.antt =====
-- The table of src/core/I18n.cpp as a list of pairs, and its lookup, where the first entry of a key
-- counts, as with `emplace`.
use Prim.Native.String.{String}
use text.Mathlib.Text.{◌==◌}
use infinity_clicker.Base.{Option, none, some, if◌then◌else◌, List, [], ◌∷◌}

-- An English text and the Russian one.
abbrev pub Entry : Type 0
Entry = String × String

unfoldable pub find_entry : String → List Entry → Option String
find_entry en [] = none
find_entry en ((k, ru) ∷ table) = if k == en then some ru else find_entry en table
