-- ===== src/Json/RoundTrip.antt =====
-- What `stringify` of src/core/Json.cpp writes, `parse` reads back.
use infinity_clicker.Base.{
  ℕ, zero, suc, ◌+◌, ◌-◌, ◌*◌, ◌<◌, ◌≤◌, ◌≡◌, ◌∙◌, refl, sym, ap, arith, Bool, true, false, ◌&&◌,
  ◌||◌, not, if◌then◌else◌, ltb, ◌==◌, List, [], ◌∷◌, ◌++◌, length, length-append,
}
use Prim.Native.Nat.{max}
use mathlib.Core.List.{append-nil, append_assoc}
use infinity_clicker.Json.{
  Text, NumArith, Value, Items, Members, null, bool, number, string, array, object, no_items, item,
  no_members, member,
}
use infinity_clicker.Json.Writer.{
  escaped, write_string, new_line, write_number, is_flat, item_comma, line_unless, colon, write,
  write_items, write_members, stringify,
}
use infinity_clicker.Json.Lexer.{Parsed, ok, skip, starts_with, literal, strip}
use infinity_clicker.Json.Parser.{
  ◌>>=◌, parse_value, parse_items, parse_members, run_parser, at_end, parse,
}
use infinity_clicker.Json.RoundTrip.Tokens.{
  skip-new_line, skip_solid, parse_string-escaped, ends_number, parse_number-append,
}
use infinity_clicker.Json.RoundTrip.Exact.{
  nesting, nesting_items, nesting_members, IsExact, AreExact, HaveExact,
}
use infinity_clicker.Json.RoundTrip.Steps.{
  append_assoc3, append_assoc5, skip-line_unless, skip-write, starts-write, has_bom-write,
  ends_number-items, ends_number-members, skip-items_end, skip-members_end, items_more, value_array,
  value_object, value_number, items_last, items_next,
}
use infinity_clicker.Json.RoundTrip.Fields.{member_text, members_last, members_next, members_more}
use infinity_clicker.Json.RoundTrip.Lengths.{
  length-items, length-items_end, length-array, length-fields, length-fields_end,
}
pub mod Lengths
pub mod Tokens
pub mod Exact
pub mod Steps
pub mod Fields

module _ (na : NumArith) where
  abbrev is_leaf : Value na → Bool
  is_leaf (array (item v xs)) = false
  is_leaf (object (member k v ms)) = false
  is_leaf _ = true

  -- With fuel enough, from a depth at which it may be nested, the value is read off the front.
  abbrev ReadsValue : Value na → Type 0
  ReadsValue v =
      (pretty : Bool) (indent depth f : ℕ) (rest : Text)
      → IsExact na v
      → depth + nesting na v ≤ 64
      → 2 * length (write na pretty indent v) < f
      → ends_number rest ≡ true
      → parse_value na f depth (write na pretty indent v ++ rest) ≡ ok v rest

  abbrev ReadsItems : Value na → Items na → Type 0
  ReadsItems v xs =
      (pretty flat : Bool) (indent depth f : ℕ) (rest : Text)
      → IsExact na v
      → AreExact na xs
      → depth + nesting_items na (item v xs) ≤ 64
      → 2
          * (length (write na pretty (indent + 1) v)
              + length (write_items na pretty flat indent xs))
        < f
      → parse_items na f depth
          (write na pretty (indent + 1) v ++ (write_items na pretty flat indent xs ++ rest))
        ≡ ok (item v xs) rest

  abbrev ReadsMembers : Text → Value na → Members na → Type 0
  ReadsMembers k v ms =
      (pretty : Bool) (indent depth f : ℕ) (rest : Text)
      → IsExact na v
      → HaveExact na ms
      → depth + nesting_members na (member k v ms) ≤ 64
      → 2 * (length (write na pretty (indent + 1) v) + length (write_members na pretty indent ms))
        < f
      → parse_members na f depth
          (member_text na pretty (indent + 1) k v (write_members na pretty indent ms ++ rest))
        ≡ ok (member k v ms) rest

  -- Values that hold no others.
  leaf_read :
      (v : Value na) (pretty : Bool) (indent depth f : ℕ) (rest : Text)
      → is_leaf v ≡ true
      → IsExact na v
      → depth ≤ 64
      → ends_number rest ≡ true
      → parse_value na (suc f) depth (write na pretty indent v ++ rest) ≡ ok v rest
  unfolding parse_value write literal strip
  leaf_read null pretty indent depth f rest n x d e = ground arith
  leaf_read (bool true) pretty indent depth f rest n x d e = ground arith
  leaf_read (bool false) pretty indent depth f rest n x d e = ground arith
  leaf_read (number n) pretty indent depth f rest _ x d e =
      value_number na f depth (write_number na n) rest d x.0
      ∙ parse_number-append na n (write_number na n) rest x.0 e x.1 x.2
  leaf_read (string s) pretty indent depth f rest n x d e =
      ap (λ t. parse_value na (suc f) depth (b'"' ∷ t)) (append_assoc (escaped s) (b'"' ∷ []) rest)
      ∙ ground (arith, parse_string-escaped s rest)
  leaf_read (array no_items) pretty indent depth f rest n x d e =
      ground (arith, skip_solid b']' rest refl refl)
  leaf_read (object no_members) pretty indent depth f rest n x d e =
      ground (arith, skip_solid b'}' rest refl refl)
  leaf_read (array (item v xs)) pretty indent depth f rest n x d e = absurd (cc)
  leaf_read (object (member k v ms)) pretty indent depth f rest n x d e = absurd (cc)

  array_read :
      (v : Value na) (xs : Items na) (pretty : Bool) (indent depth f : ℕ) (rest : Text)
      → IsExact na v
      → depth ≤ 64
      → parse_items na f depth (
          write na pretty (indent + 1) v
          ++ (write_items na pretty (is_flat na (item v xs)) indent xs ++ rest))
        ≡ ok (item v xs) rest
      → parse_value na (suc f) depth (write na pretty indent (array (item v xs)) ++ rest)
        ≡ ok (array (item v xs)) rest
  unfolding write
  array_read v xs pretty indent depth f rest x d h =
      let flat = is_flat na (item v xs) in
      let line = line_unless na flat pretty (indent + 1) in
      let value = write na pretty (indent + 1) v in
      let after = write_items na pretty flat indent xs ++ rest in
      let inside : skip false (line ++ (value ++ after)) ≡ value ++ after =
        skip-line_unless na flat pretty (indent + 1) (value ++ after)
        ∙ skip-write na v pretty (indent + 1) after x in
      ap (λ t. parse_value na (suc f) depth (b'[' ∷ t))
        (append_assoc3 line value (write_items na pretty flat indent xs) rest)
      ∙ value_array na f depth (line ++ (value ++ after)) (item v xs) rest d
          (ap (starts_with b']') inside ∙ starts-write na v pretty (indent + 1) after x)
          (ap (parse_items na f depth) inside ∙ h)

  object_read :
      (k : Text) (v : Value na) (ms : Members na) (pretty : Bool) (indent depth f : ℕ) (rest : Text)
      → depth ≤ 64
      → parse_members na f depth
          (member_text na pretty (indent + 1) k v (write_members na pretty indent ms ++ rest))
        ≡ ok (member k v ms) rest
      → parse_value na (suc f) depth (write na pretty indent (object (member k v ms)) ++ rest)
        ≡ ok (object (member k v ms)) rest
  unfolding write
  object_read k v ms pretty indent depth f rest d h =
      let line = new_line pretty (indent + 1) in
      let value = write na pretty (indent + 1) v in
      let after = write_members na pretty indent ms in
      let first = member_text na pretty (indent + 1) k v (after ++ rest) in
      let inside : skip false (line ++ first) ≡ first =
        skip-new_line pretty (indent + 1) first ∙ skip_solid b'"' _ refl refl in
      ap (λ t. parse_value na (suc f) depth (b'{' ∷ t))
        (append_assoc5 line (write_string k) (colon na pretty) value after rest)
      ∙ value_object na f depth (line ++ first) (member k v ms) rest d
          (ap (starts_with b'}') inside) (ap (parse_members na f depth) inside ∙ h)

  mutual
    value_read : (v : Value na) → ReadsValue v
    value_read v pretty indent depth zero rest x d l e = absurd (omega arith)
    value_read (array (item v xs)) pretty indent depth (suc f) rest x d l e =
        array_read v xs pretty indent depth f rest x.0 (omega arith) (
          items_read v (value_read v) xs pretty (is_flat na (item v xs)) indent depth f rest x.0 x.1
            d (omega (arith, length-array na pretty indent v xs)))
    value_read (object (member k v ms)) pretty indent depth (suc f) rest x d l e =
        object_read k v ms pretty indent depth f rest (omega arith) (
          members_read k v (value_read v) ms pretty indent depth f rest x.0 x.1 d
            (omega (arith, (length-fields na pretty indent k v ms).1)))
    value_read v pretty indent depth (suc f) rest x d l e =
        leaf_read v pretty indent depth f rest refl x (omega arith) e

    items_read : (v : Value na) → ReadsValue v → (xs : Items na) → ReadsItems v xs
    items_read v rv xs pretty flat indent depth zero rest xv xxs d l = absurd (omega arith)
    items_read v rv no_items pretty flat indent depth (suc f) rest xv xxs d l =
        let close = write_items na pretty flat indent no_items ++ rest in
        items_last na f depth (write na pretty (indent + 1) v ++ close) v close rest
          (ap (parse_value na f (depth + 1)) (skip-write na v pretty (indent + 1) close xv)
            ∙ rv pretty (indent + 1) (depth + 1) f close xv (omega arith)
                (omega (arith, length-items_end na pretty flat indent))
                (ends_number-items na pretty flat indent no_items rest))
          (skip-items_end na pretty flat indent rest)
    items_read v rv (item w ys) pretty flat indent depth (suc f) rest xv xxs d l =
        let after = write_items na pretty flat indent (item w ys) ++ rest in
        let next = write_items na pretty flat indent ys ++ rest in
        let (cs, comma, start) = items_more na pretty flat indent w ys rest xxs.0 in
        let shorter = length-items na pretty flat indent w ys in
        items_next na f depth (write na pretty (indent + 1) v ++ after) v after cs (item w ys) rest
          (ap (parse_value na f (depth + 1)) (skip-write na v pretty (indent + 1) after xv)
            ∙ rv pretty (indent + 1) (depth + 1) f after xv (omega arith) (omega (arith, shorter))
                (ends_number-items na pretty flat indent (item w ys) rest))
          comma (ap (starts_with b']') start ∙ starts-write na w pretty (indent + 1) next xxs.0)
          (ap (parse_items na f depth) start
            ∙ items_read w (value_read w) ys pretty flat indent depth f rest xxs.0 xxs.1
                (omega arith) (omega (arith, shorter)))

    members_read :
        (k : Text) (v : Value na) → ReadsValue v → (ms : Members na) → ReadsMembers k v ms
    members_read k v rv ms pretty indent depth zero rest xv xms d l = absurd (omega arith)
    members_read k v rv no_members pretty indent depth (suc f) rest xv xms d l =
        let close = write_members na pretty indent no_members ++ rest in
        members_last na pretty (indent + 1) f depth _ k v close rest (skip_solid b'"' _ refl refl)
          xv
          (rv pretty (indent + 1) (depth + 1) f close xv (omega arith)
            (omega (arith, length-fields_end na pretty indent))
            (ends_number-members na pretty indent no_members rest))
          (skip-members_end na pretty indent rest)
    members_read k v rv (member j w ys) pretty indent depth (suc f) rest xv xms d l =
        let after = write_members na pretty indent (member j w ys) ++ rest in
        let (cs, comma, start) = members_more na pretty indent j w ys rest in
        let shorter = (length-fields na pretty indent j w ys).0 in
        members_next na pretty (indent + 1) f depth _ k v after cs (member j w ys) rest
          (skip_solid b'"' _ refl refl) xv
          (rv pretty (indent + 1) (depth + 1) f after xv (omega arith) (omega (arith, shorter))
            (ends_number-members na pretty indent (member j w ys) rest))
          comma (ap (starts_with b'}') start)
          (ap (parse_members na f depth) start
            ∙ members_read j w (value_read w) ys pretty indent depth f rest xms.0 xms.1
                (omega arith) (omega (arith, shorter)))

  abbrev last_line : Bool → Text
  last_line pretty = if pretty then 10 ∷ [] else []

  skip-last_line : (pretty : Bool) → skip false (last_line pretty) ≡ []
  unfolding skip
  skip-last_line true = refl
  skip-last_line false = refl

  ends_number-last_line : (pretty : Bool) → ends_number (last_line pretty) ≡ true
  ends_number-last_line true = refl
  ends_number-last_line false = refl

  -- A value whose numbers print as what reads back as them, with at most 64 containers inside one
  -- another, is read back from what is written for it, pretty or not, whatever bytes its texts hold:
  -- the whole text is taken, and the fuel is enough.
  pub parse-stringify :
      (v : Value na) (pretty : Bool)
      → IsExact na v
      → nesting na v ≤ 64
      → parse na (stringify na v pretty) ≡ ok v []
  unfolding parse run_parser stringify
  parse-stringify v pretty x d =
      let text = write na pretty 0 v in
      let end = last_line pretty in
      let read =
        value_read v pretty 0 0 (2 * length (text ++ end) + 1) end x (omega arith)
          (omega (arith, length-append text end)) (ends_number-last_line pretty) in
      rw (has_bom-write na v pretty 0 end x)
        (rw (skip-write na v pretty 0 end x) (rw read (ap (at_end na v) (skip-last_line pretty))))
