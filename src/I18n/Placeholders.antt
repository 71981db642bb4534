-- ===== src/I18n/Placeholders.antt =====
-- The placeholders of printf in a text, and what every entry of the table keeps.
use Prim.Native.String.{String}
use text.Mathlib.Text.{◌==◌ as str_eq}
use text.Mathlib.TextEquality.{eq_iff}
use infinity_clicker.Base.{
  ℕ, Bool, Bool-cases, inl, inr, subst, true, false, ◌&&◌, ◌||◌, not, Option, none, some,
  if◌then◌else◌, leb, ◌==◌, List, [], ◌∷◌, ◌++◌, ◌≡◌, refl, arith,
}
use infinity_clicker.Json.{Text, codes}
use infinity_clicker.I18n.Table.{Entry, find_entry}

-- A flag, a width, a precision or a length of a placeholder: a digit, `.`, `l`, `-`, `+`, `#` or `*`.
is_modifier : ℕ → Bool
is_modifier c =
    leb b'0' c && leb c b'9'
    || c == b'.'
    || c == b'l'
    || c == b'-'
    || c == b'+'
    || c == b'#'
    || c == b'*'

-- The letter at the end of a placeholder, or the second sign of `%%`.
is_conversion : ℕ → Bool
is_conversion c = leb b'a' c && leb c b'z' || c == b'%'

-- What has been read of a placeholder, once its `%` has been read.
next_state : Option Text → ℕ → Option Text
unfolding is_modifier
next_state none c = if c == b'%' then some [] else none
next_state (some read) c = if is_modifier c then some (read ++ c ∷ []) else none

-- The placeholder that ends here.
ended : Option Text → ℕ → List Text
unfolding is_conversion is_modifier
ended none c = []
ended (some read) c = if is_conversion c && not (is_modifier c) then (read ++ c ∷ []) ∷ [] else []

read_placeholders : Option Text → Text → List Text
unfolding next_state ended
read_placeholders state [] = []
read_placeholders state (c ∷ s) = ended state c ++ read_placeholders (next_state state c) s

-- The placeholders of a text in their order, each without its `%`. A `%` before a space is text.
unfoldable pub placeholders : String → List Text
unfolding read_placeholders
placeholders s = read_placeholders none (codes s)

abbrev pub is_blank_text : String → Bool
is_blank_text s = str_eq s ""

-- What an entry keeps: the placeholders in their order, and a text is not lost.
abbrev pub Keeps : String → String → Type 0
Keeps text shown =
    (placeholders shown ≡ placeholders text)
    × (is_blank_text text ≡ false → is_blank_text shown ≡ false)

pub Keeps-refl : (text : String) → Keeps text text
Keeps-refl text = (refl, λ h. h)

same_text : Text → Text → Bool
same_text [] [] = true
same_text (a ∷ s) (b ∷ t) = a == b && same_text s t
same_text _ _ = false

same_text→eq : (s t : Text) → same_text s t ≡ true → s ≡ t
unfolding same_text
same_text→eq [] [] h = refl
same_text→eq [] (b ∷ t) h = cc
same_text→eq (a ∷ s) [] h = cc
same_text→eq (a ∷ s) (b ∷ t) h = ground (arith, same_text→eq s t)

same_texts : List Text → List Text → Bool
same_texts [] [] = true
same_texts (s ∷ ss) (t ∷ ts) = same_text s t && same_texts ss ts
same_texts _ _ = false

same_texts→eq : (ss ts : List Text) → same_texts ss ts ≡ true → ss ≡ ts
unfolding same_texts
same_texts→eq [] [] h = refl
same_texts→eq [] (t ∷ ts) h = cc
same_texts→eq (s ∷ ss) [] h = cc
same_texts→eq (s ∷ ss) (t ∷ ts) h = ground (arith, same_text→eq s t, same_texts→eq ss ts)

-- The test of `Keeps`.
keeps : Entry → Bool
keeps (text, shown) =
    same_texts (placeholders shown) (placeholders text)
    && (is_blank_text text || not (is_blank_text shown))

keeps→Keeps : (text shown : String) → keeps (text, shown) ≡ true → Keeps text shown
unfolding keeps
keeps→Keeps text shown h = elim (Bool-cases (same_texts (placeholders shown) (placeholders text))) [
  | inl same ↦ (same_texts→eq _ _ same, λ full. ground arith)
  | inr differ ↦ absurd (ground arith)
]

unfoldable pub all_keep : List Entry → Bool
unfolding keeps same_text same_texts placeholders
all_keep [] = true
all_keep (entry ∷ rest) = keeps entry && all_keep rest

some_inj : {a b : String} → some a ≡ some b → a ≡ b
some_inj e = cc

-- What a section gives for a text keeps it, if every entry of the section does.
pub find_entry-Keeps :
    (text : String) (table : List Entry) {found : String}
    → all_keep table ≡ true
    → find_entry text table ≡ some found
    → Keeps text found
unfolding all_keep find_entry
find_entry-Keeps text [] h e = cc
find_entry-Keeps text ((k, shown) ∷ rest) {found} h e = elim (Bool-cases (str_eq k text)) [
  | inl hit ↦
      let same : k ≡ text = (eq_iff k text).0 hit in
      let shown_is : shown ≡ found = some_inj (rw hit at e) in
      subst (λ t. Keeps t found) same
        (subst (Keeps k) shown_is (keeps→Keeps k shown (ground arith)))
  | inr miss ↦ find_entry-Keeps text rest (ground arith) (rw miss at e)
]
