-- ===== src/Json/RoundTrip/Lengths.antt =====
-- The parts that src/core/Json.cpp writes are shorter than the whole.
use infinity_clicker.Base.{ℕ, ◌+◌, ◌<◌, ◌≤◌, arith, Bool, [], ◌∷◌, ◌++◌, length, length-append}
use infinity_clicker.Json.{
  Text, NumArith, Value, Items, Members, array, object, no_items, item, no_members, member,
}
use infinity_clicker.Json.Writer.{
  write_string, new_line, is_flat, item_comma, line_unless, colon, write, write_items,
  write_members,
}

module _ (na : NumArith) where
  pub length-items :
      (pretty flat : Bool) (indent : ℕ) (v : Value na) (xs : Items na)
      → length (write na pretty (indent + 1) v) + length (write_items na pretty flat indent xs)
        < length (write_items na pretty flat indent (item v xs))
  unfolding write_items item_comma
  length-items pretty flat indent v xs =
      let line = line_unless na flat pretty (indent + 1) in
      let value = write na pretty (indent + 1) v in
      let rest = write_items na pretty flat indent xs in
      ground (arith, length-append line (value ++ rest), length-append value rest)

  pub length-items_end :
      (pretty flat : Bool) (indent : ℕ) → 1 ≤ length (write_items na pretty flat indent no_items)
  unfolding write_items
  length-items_end pretty flat indent =
      let line = line_unless na flat pretty indent in omega (arith, length-append line (b']' ∷ []))

  pub length-array :
      (pretty : Bool) (indent : ℕ) (v : Value na) (xs : Items na)
      → let flat = is_flat na (item v xs) in
        length (write na pretty (indent + 1) v) + length (write_items na pretty flat indent xs)
        < length (write na pretty indent (array (item v xs)))
  unfolding write
  length-array pretty indent v xs =
      let flat = is_flat na (item v xs) in
      let line = line_unless na flat pretty (indent + 1) in
      let value = write na pretty (indent + 1) v in
      let rest = write_items na pretty flat indent xs in
      omega (arith, length-append line (value ++ rest), length-append value rest)

  pub length-fields :
      (pretty : Bool) (indent : ℕ) (k : Text) (v : Value na) (ms : Members na)
      → (length (write na pretty (indent + 1) v) + length (write_members na pretty indent ms)
          < length (write_members na pretty indent (member k v ms)))
        × (length (write na pretty (indent + 1) v) + length (write_members na pretty indent ms)
            < length (write na pretty indent (object (member k v ms))))
  unfolding write write_members
  length-fields pretty indent k v ms =
      let line = new_line pretty (indent + 1) in
      let key = write_string k in
      let value = write na pretty (indent + 1) v in
      let rest = write_members na pretty indent ms in
      let after_colon = colon na pretty ++ (value ++ rest) in
      omega (
        arith,
        length-append line (key ++ after_colon),
        length-append key after_colon,
        length-append (colon na pretty) (value ++ rest),
        length-append value rest,
      )

  pub length-fields_end :
      (pretty : Bool) (indent : ℕ) → 1 ≤ length (write_members na pretty indent no_members)
  unfolding write_members
  length-fields_end pretty indent =
      omega (arith, length-append (new_line pretty indent) (b'}' ∷ []))
