-- ===== src/Json.antt =====
-- src/core/Json.h and the accessors of src/core/Json.cpp: JSON values. Text is a list of bytes.
use Prim.Native.String.{String}
use Prim.Native.String
use Prim.Native.Char.{code}
use infinity_clicker.Base.{
  ℤ, pos, ℕ, suc, ◌+◌, Bool, true, false, ◌&&◌, if◌then◌else◌, ◌==◌, List, [], ◌∷◌, Option, none,
  some,
}
pub mod Writer
pub mod Lexer
pub mod Parser
pub mod RoundTrip
pub mod Fuel

abbrev pub Text : Type 0
Text = List ℕ

-- The bytes of a text literal.
abbrev pub codes : String → Text
codes String.[] = []
codes (String.◌∷◌ c s) = code c ∷ codes s

-- The floating-point numbers, with what the code asks of the C library about them.
pub record NumArith : Type 1 where
  pub Number : Type 0
  -- `0.0`
  pub zero_number : Number
  -- `std::isfinite(v)`
  pub finite : Number → Bool
  -- `std::floor(v) == v && std::fabs(v) < 9.007199254740992e15`
  pub whole : Number → Bool
  -- "%lld" and "%.10g" of `snprintf`
  pub print_whole : Number → Text
  pub print_general : Number → Text
  -- `std::strtod`: `none` if it converts nothing
  pub read : Text → Option Number
  -- `double(z)` and `int64_t(v)`
  pub of_int : ℤ → Number
  pub to_int : Number → ℤ

abbrev pub text_eq : Text → Text → Bool
text_eq [] [] = true
text_eq (a ∷ s) (b ∷ t) = a == b && text_eq s t
text_eq _ _ = false

module _ (na : NumArith) where
  mutual
    pub data Value : Type 0 where
      null : Value
      bool : Bool → Value
      number : na.Number → Value
      string : Text → Value
      array : Items → Value
      object : Members → Value

    pub data Items : Type 0 where
      no_items : Items
      item : Value → Items → Items

    pub data Members : Type 0 where
      no_members : Members
      member : Text → Value → Members → Members

  abbrev pub is_container : Value → Bool
  is_container (array xs) = true
  is_container (object ms) = true
  is_container _ = false

  abbrev pub as_bool : Value → Bool → Bool
  as_bool (bool b) d = b
  as_bool _ d = d

  abbrev pub as_number : Value → na.Number → na.Number
  as_number (number n) d = n
  as_number _ d = d

  abbrev pub as_int : Value → ℤ → ℤ
  as_int (number n) d = na.to_int n
  as_int _ d = d

  abbrev pub as_string : Value → Text → Text
  as_string (string s) d = s
  as_string _ d = d

  abbrev pub items : Value → Items
  items (array xs) = xs
  items _ = no_items

  abbrev pub members : Value → Members
  members (object ms) = ms
  members _ = no_members

  abbrev pub count_items : Items → ℕ
  count_items no_items = 0
  count_items (item v xs) = suc (count_items xs)

  abbrev pub count_members : Members → ℕ
  count_members no_members = 0
  count_members (member k v ms) = suc (count_members ms)

  abbrev pub size : Value → ℕ
  size (array xs) = count_items xs
  size (object ms) = count_members ms
  size _ = 0

  abbrev pub push_item : Items → Value → Items
  push_item no_items v = item v no_items
  push_item (item w xs) v = item w (push_item xs v)

  -- `push`: what is no array becomes one first, by `ensureArray`.
  abbrev pub push : Value → Value → Value
  push a v = array (push_item (items a) v)

  unfoldable pub find_member : Members → Text → Option Value
  find_member no_members key = none
  find_member (member k v ms) key = if text_eq k key then some v else find_member ms key

  abbrev pub find : Value → Text → Option Value
  find v key = find_member (members v) key

  unfoldable pub set_member : Members → Text → Value → Members
  set_member no_members key v = member key v no_members
  set_member (member k w ms) key v =
      if text_eq k key then member k v ms else member k w (set_member ms key v)

  -- `set`: what is no object becomes an empty one first, by `ensureObject`.
  abbrev pub set : Value → Text → Value → Value
  set o key v = object (set_member (members o) key v)

  abbrev pub or_default {ℓ} : {A : Type ℓ} → (Value → A → A) → Option Value → A → A
  or_default f none d = d
  or_default f (some v) d = f v d

  abbrev pub get_bool : Value → Text → Bool → Bool
  get_bool o key d = or_default as_bool (find o key) d

  abbrev pub get_number : Value → Text → na.Number → na.Number
  get_number o key d = or_default as_number (find o key) d

  abbrev pub get_int : Value → Text → ℤ → ℤ
  get_int o key d = or_default as_int (find o key) d

  abbrev pub get_string : Value → Text → Text → Text
  get_string o key d = or_default as_string (find o key) d
