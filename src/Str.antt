-- ===== src/Str.antt =====
-- src/core/Str.cpp, as far as other parts use it: texts are lists of bytes.
use infinity_clicker.Base.{
  ℕ, ◌+◌, Bool, true, false, ◌&&◌, ◌||◌, if◌then◌else◌, leb, ◌==◌, [], ◌∷◌, reverse,
}
use infinity_clicker.Json.{Text}

abbrev pub is_blank : ℕ → Bool
is_blank c = c == 32 || c == 9 || c == 13 || c == 10

abbrev pub drop_blanks : Text → Text
drop_blanks [] = []
drop_blanks (c ∷ s) = let rest = drop_blanks s in if is_blank c then rest else c ∷ s

-- `trim` of src/core/Str.cpp
abbrev pub trim : Text → Text
trim s = reverse (drop_blanks (reverse (drop_blanks s)))

abbrev pub is_empty_text : Text → Bool
is_empty_text [] = true
is_empty_text (c ∷ s) = false

-- `toLowerAscii`
abbrev pub is_capital : ℕ → Bool
is_capital c = leb b'A' c && leb c b'Z'

unfoldable pub lower : Text → Text
lower [] = []
lower (c ∷ s) = (if is_capital c then c + 32 else c) ∷ lower s
