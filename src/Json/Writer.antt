-- ===== src/Json/Writer.antt =====
-- `stringify` of src/core/Json.cpp.
use infinity_clicker.Base.{
  ℕ, ◌+◌, ◌*◌, ◌/◌, ◌%◌, Bool, true, ◌&&◌, not, if◌then◌else◌, ltb, leb, ◌==◌, [], ◌∷◌, ◌++◌,
  replicate,
}
use infinity_clicker.Json.{
  Text, NumArith, Value, Items, Members, null, bool, number, string, array, object, no_items, item,
  no_members, member, is_container, count_items,
}

-- "%x" of a digit
abbrev pub hex_digit : ℕ → ℕ
hex_digit n = if ltb n 10 then n + 48 else n + 87

-- What a byte of a string is written as.
unfoldable pub escape : ℕ → Text
escape c =
    if c == b'"'
    then b'\\' ∷ b'"' ∷ []
    else if c == b'\\'
    then b'\\' ∷ b'\\' ∷ []
    else if c == 10
    then b'\\' ∷ b'n' ∷ []
    else if c == 13
    then b'\\' ∷ b'r' ∷ []
    else if c == 9
    then b'\\' ∷ b't' ∷ []
    else if c == 8
    then b'\\' ∷ b'b' ∷ []
    else if c == 12
    then b'\\' ∷ b'f' ∷ []
    else if ltb c 32
    then b'\\' ∷ b'u' ∷ b'0' ∷ b'0' ∷ hex_digit (c / 16) ∷ hex_digit (c % 16) ∷ []
    else c ∷ []

abbrev pub escaped : Text → Text
escaped [] = []
escaped (c ∷ s) = escape c ++ escaped s

abbrev pub write_string : Text → Text
write_string s = b'"' ∷ (escaped s ++ b'"' ∷ [])

-- The lambda `nl` of `write`.
unfoldable pub new_line : Bool → ℕ → Text
new_line pretty indent = if pretty then 10 ∷ replicate (indent * 2) 32 else []

module _ (na : NumArith) where
  unfoldable pub write_number : na.Number → Text
  write_number n =
      if na.finite n && na.whole n
      then na.print_whole n
      else if na.finite n
      then na.print_general n
      else b'0' ∷ []

  abbrev all_scalars : Items na → Bool
  all_scalars no_items = true
  all_scalars (item v xs) = not (is_container na v) && all_scalars xs

  -- Short arrays of scalars stay on one line.
  unfoldable pub is_flat : Items na → Bool
  is_flat xs = leb (count_items na xs) 16 && all_scalars xs

  -- Between two items.
  unfoldable pub item_comma : Bool → Bool → Text
  item_comma pretty flat = if flat && pretty then b',' ∷ 32 ∷ [] else b',' ∷ []

  abbrev pub line_unless : Bool → Bool → ℕ → Text
  line_unless flat pretty indent = if flat then [] else new_line pretty indent

  abbrev pub colon : Bool → Text
  colon pretty = if pretty then b':' ∷ 32 ∷ [] else b':' ∷ []

  unfoldable mutual
    pub write : Bool → ℕ → Value na → Text
    write pretty indent null = b'n' ∷ b'u' ∷ b'l' ∷ b'l' ∷ []
    write pretty indent (bool b) =
        if b then b't' ∷ b'r' ∷ b'u' ∷ b'e' ∷ [] else b'f' ∷ b'a' ∷ b'l' ∷ b's' ∷ b'e' ∷ []
    write pretty indent (number n) = write_number n
    write pretty indent (string s) = write_string s
    write pretty indent (array no_items) = b'[' ∷ b']' ∷ []
    write pretty indent (array (item v xs)) =
        let flat = is_flat (item v xs) in
        b'['
        ∷ (line_unless flat pretty (indent + 1)
            ++ (write pretty (indent + 1) v ++ write_items pretty flat indent xs))
    write pretty indent (object no_members) = b'{' ∷ b'}' ∷ []
    write pretty indent (object (member k v ms)) =
        b'{'
        ∷ (new_line pretty (indent + 1)
            ++ (write_string k
                ++ (colon pretty
                    ++ (write pretty (indent + 1) v ++ write_members pretty indent ms))))

    -- The items after the first, and the end of the array.
    pub write_items : Bool → Bool → ℕ → Items na → Text
    write_items pretty flat indent no_items = line_unless flat pretty indent ++ b']' ∷ []
    write_items pretty flat indent (item v xs) =
        item_comma pretty flat
        ++ (line_unless flat pretty (indent + 1)
            ++ (write pretty (indent + 1) v ++ write_items pretty flat indent xs))

    pub write_members : Bool → ℕ → Members na → Text
    write_members pretty indent no_members = new_line pretty indent ++ b'}' ∷ []
    write_members pretty indent (member k v ms) =
        b','
        ∷ (new_line pretty (indent + 1)
            ++ (write_string k
                ++ (colon pretty
                    ++ (write pretty (indent + 1) v ++ write_members pretty indent ms))))

  unfoldable pub stringify : Value na → Bool → Text
  stringify v pretty = write pretty 0 v ++ (if pretty then 10 ∷ [] else [])
