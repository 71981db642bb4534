-- ===== src/Json/RoundTrip/Steps.antt =====
-- One round of the parser of src/core/Json.cpp over what its printer writes.
use infinity_clicker.Base.{
  ℕ, suc, ◌+◌, ◌≤◌, ◌≡◌, ◌∙◌, refl, ap, arith, Bool, true, false, ◌&&◌, ◌||◌, if◌then◌else◌, ◌==◌,
  [], ◌∷◌, ◌++◌,
}
use mathlib.Core.List.{append_assoc}
use infinity_clicker.Json.{
  Text, NumArith, Value, Items, Members, null, bool, number, string, array, object, no_items, item,
  no_members, member,
}
use infinity_clicker.Json.Writer.{
  new_line, write_number, item_comma, line_unless, write, write_items, write_members,
}
use infinity_clicker.Json.Lexer.{
  ok, skip, starts_with, parse_number, is_digit, is_sign, unterminated_array,
  expected_comma_or_bracket,
}
use infinity_clicker.Json.Parser.{
  ◌>>=◌, after_value, parse_value, parse_items, parse_members, has_bom,
}
use infinity_clicker.Json.RoundTrip.Exact.{IsExact}
use infinity_clicker.Json.RoundTrip.Tokens.{
  skip-number, skip-new_line, skip_solid, number_word, ends_number,
}

pub append_assoc3 : (a b c d : Text) → (a ++ (b ++ c)) ++ d ≡ a ++ (b ++ (c ++ d))
append_assoc3 a b c d = append_assoc a (b ++ c) d ∙ ap (λ t. a ++ t) (append_assoc b c d)

pub append_assoc5 :
    (a b c d e g : Text) → (a ++ (b ++ (c ++ (d ++ e)))) ++ g ≡ a ++ (b ++ (c ++ (d ++ (e ++ g))))
append_assoc5 a b c d e g =
    append_assoc3 a b (c ++ (d ++ e)) g ∙ ap (λ t. a ++ (b ++ t)) (append_assoc3 c d e g)

module _ (na : NumArith) where
  starts-number :
      (close : ℕ) (w t : Text)
      → number_word w ≡ true
      → (is_digit close || close == b'.' || close == b'e' || close == b'E' || is_sign close) ≡ false
      → starts_with close (w ++ t) ≡ false
  starts-number close [] t h k = absurd (cc)
  starts-number close (c ∷ w) t h k = ground arith

  no_bom : (t : Text) → starts_with 0xEF t ≡ false → has_bom na t ≡ false
  no_bom [] h = refl
  no_bom (a ∷ []) h = refl
  no_bom (a ∷ b ∷ []) h = refl
  no_bom (a ∷ b ∷ c ∷ t) h = ground arith

  -- A written value starts with a character that is neither white space nor a comment's, and closes
  -- nothing.
  pub skip-write :
      (v : Value na) (pretty : Bool) (indent : ℕ) (t : Text)
      → IsExact na v
      → skip false (write na pretty indent v ++ t) ≡ write na pretty indent v ++ t
  unfolding write
  skip-write null pretty indent t x = skip_solid _ _ refl refl
  skip-write (bool true) pretty indent t x = skip_solid _ _ refl refl
  skip-write (bool false) pretty indent t x = skip_solid _ _ refl refl
  skip-write (number n) pretty indent t x = skip-number (write_number na n) t x.0
  skip-write (string s) pretty indent t x = skip_solid _ _ refl refl
  skip-write (array no_items) pretty indent t x = skip_solid _ _ refl refl
  skip-write (array (item v xs)) pretty indent t x = skip_solid _ _ refl refl
  skip-write (object no_members) pretty indent t x = skip_solid _ _ refl refl
  skip-write (object (member k v ms)) pretty indent t x = skip_solid _ _ refl refl

  pub starts-write :
      (v : Value na) (pretty : Bool) (indent : ℕ) (t : Text)
      → IsExact na v
      → starts_with b']' (write na pretty indent v ++ t) ≡ false
  unfolding write
  starts-write null pretty indent t x = refl
  starts-write (bool true) pretty indent t x = refl
  starts-write (bool false) pretty indent t x = refl
  starts-write (number n) pretty indent t x = starts-number b']' (write_number na n) t x.0 refl
  starts-write (string s) pretty indent t x = refl
  starts-write (array no_items) pretty indent t x = refl
  starts-write (array (item v xs)) pretty indent t x = refl
  starts-write (object no_members) pretty indent t x = refl
  starts-write (object (member k v ms)) pretty indent t x = refl

  -- What follows a written item or member ends a number.
  pub ends_number-items :
      (pretty flat : Bool) (indent : ℕ) (xs : Items na) (t : Text)
      → ends_number (write_items na pretty flat indent xs ++ t) ≡ true
  unfolding write_items item_comma new_line
  ends_number-items pretty true indent no_items t = refl
  ends_number-items true false indent no_items t = refl
  ends_number-items false false indent no_items t = refl
  ends_number-items true true indent (item v xs) t = refl
  ends_number-items true false indent (item v xs) t = refl
  ends_number-items false flat indent (item v xs) t = ground arith

  pub ends_number-members :
      (pretty : Bool) (indent : ℕ) (ms : Members na) (t : Text)
      → ends_number (write_members na pretty indent ms ++ t) ≡ true
  unfolding write_members new_line
  ends_number-members true indent no_members t = refl
  ends_number-members false indent no_members t = refl
  ends_number-members pretty indent (member k v ms) t = refl

  pub skip-line_unless :
      (flat pretty : Bool) (indent : ℕ) (t : Text)
      → skip false (line_unless na flat pretty indent ++ t) ≡ skip false t
  skip-line_unless true pretty indent t = refl
  skip-line_unless false pretty indent t = skip-new_line pretty indent t

  pub skip-items_end :
      (pretty flat : Bool) (indent : ℕ) (t : Text)
      → skip false (write_items na pretty flat indent no_items ++ t) ≡ b']' ∷ t
  unfolding write_items
  skip-items_end pretty flat indent t =
      ap (skip false) (append_assoc (line_unless na flat pretty indent) (b']' ∷ []) t)
      ∙ skip-line_unless flat pretty indent (b']' ∷ t)
      ∙ skip_solid b']' t refl refl

  pub skip-members_end :
      (pretty : Bool) (indent : ℕ) (t : Text)
      → skip false (write_members na pretty indent no_members ++ t) ≡ b'}' ∷ t
  unfolding write_members
  skip-members_end pretty indent t =
      ap (skip false) (append_assoc (new_line pretty indent) (b'}' ∷ []) t)
      ∙ skip-new_line pretty indent (b'}' ∷ t)
      ∙ skip_solid b'}' t refl refl

  -- After the comma before an item.
  abbrev after_comma : Bool → Bool → Text
  after_comma pretty flat = if flat && pretty then 32 ∷ [] else []

  comma-item_comma :
      (pretty flat : Bool) → item_comma na pretty flat ≡ b',' ∷ after_comma pretty flat
  unfolding item_comma
  comma-item_comma pretty flat = ground arith

  skip-after_comma :
      (pretty flat : Bool) (t : Text) → skip false (after_comma pretty flat ++ t) ≡ skip false t
  unfolding skip
  skip-after_comma true true t = refl
  skip-after_comma true false t = refl
  skip-after_comma false true t = refl
  skip-after_comma false false t = refl

  pub items_more :
      (pretty flat : Bool) (indent : ℕ) (w : Value na) (ys : Items na) (t : Text)
      → IsExact na w
      → (cs : Text) × (skip false (write_items na pretty flat indent (item w ys) ++ t) ≡ b',' ∷ cs)
        × (skip false cs
            ≡ write na pretty (indent + 1) w ++ (write_items na pretty flat indent ys ++ t))
  unfolding write_items
  items_more pretty flat indent w ys t x =
      let line = line_unless na flat pretty (indent + 1) in
      let value = write na pretty (indent + 1) w in
      let rest = write_items na pretty flat indent ys in
      (
        after_comma pretty flat ++ (line ++ (value ++ (rest ++ t))),
        ap (skip false)
              (ap (λ c. (c ++ (line ++ (value ++ rest))) ++ t) (comma-item_comma pretty flat))
            ∙ skip_solid b',' _ refl refl
            ∙ ap (λ u. b',' ∷ u)
                (append_assoc (after_comma pretty flat) (line ++ (value ++ rest)) t
                  ∙ ap (λ u. after_comma pretty flat ++ u) (append_assoc3 line value rest t)),
        skip-after_comma pretty flat _
            ∙ skip-line_unless flat pretty (indent + 1) _
            ∙ skip-write w pretty (indent + 1) _ x,
      )

  -- The rounds of the parser.
  pub value_array :
      (f depth : ℕ) (cs : Text) (xs : Items na) (rest : Text)
      → depth ≤ 64
      → starts_with b']' (skip false cs) ≡ false
      → parse_items na f depth (skip false cs) ≡ ok xs rest
      → parse_value na (suc f) depth (b'[' ∷ cs) ≡ ok (array xs) rest
  unfolding parse_value
  value_array f depth cs xs rest d s h = ground arith

  pub value_object :
      (f depth : ℕ) (cs : Text) (ms : Members na) (rest : Text)
      → depth ≤ 64
      → starts_with b'}' (skip false cs) ≡ false
      → parse_members na f depth (skip false cs) ≡ ok ms rest
      → parse_value na (suc f) depth (b'{' ∷ cs) ≡ ok (object ms) rest
  unfolding parse_value
  value_object f depth cs ms rest d s h = ground arith

  pub value_number :
      (f depth : ℕ) (w rest : Text)
      → depth ≤ 64
      → number_word w ≡ true
      → parse_value na (suc f) depth (w ++ rest) ≡ parse_number na (w ++ rest)
  unfolding parse_value
  value_number f depth [] rest d h = absurd (cc)
  value_number f depth (c ∷ w) rest d h = ground arith

  pub items_step :
      (f depth : ℕ) (ts : Text) (v : Value na) (rest : Text)
      → parse_value na f (depth + 1) (skip false ts) ≡ ok v rest
      → parse_items na (suc f) depth ts
        ≡ after_value na b']' unterminated_array expected_comma_or_bracket
            (item v no_items)
            (λ more. parse_items na f depth more >>= λ xs end. ok (item v xs) end)
            (skip false rest)
  unfolding parse_items
  items_step f depth ts v rest h = rw h

  pub items_last :
      (f depth : ℕ) (ts : Text) (v : Value na) (rest t : Text)
      → parse_value na f (depth + 1) (skip false ts) ≡ ok v rest
      → skip false rest ≡ b']' ∷ t
      → parse_items na (suc f) depth ts ≡ ok (item v no_items) t
  items_last f depth ts v rest t h e = items_step f depth ts v rest h ∙ rw e

  pub items_next :
      (f depth : ℕ) (ts : Text) (v : Value na) (rest cs : Text) (xs : Items na) (t : Text)
      → parse_value na f (depth + 1) (skip false ts) ≡ ok v rest
      → skip false rest ≡ b',' ∷ cs
      → starts_with b']' (skip false cs) ≡ false
      → parse_items na f depth (skip false cs) ≡ ok xs t
      → parse_items na (suc f) depth ts ≡ ok (item v xs) t
  items_next f depth ts v rest cs xs t h e s m = items_step f depth ts v rest h ∙ rw e (rw s (rw m))

  starts_bom-write :
      (v : Value na) (pretty : Bool) (indent : ℕ) (t : Text)
      → IsExact na v
      → starts_with 0xEF (write na pretty indent v ++ t) ≡ false
  unfolding write
  starts_bom-write null pretty indent t x = refl
  starts_bom-write (bool true) pretty indent t x = refl
  starts_bom-write (bool false) pretty indent t x = refl
  starts_bom-write (number n) pretty indent t x = starts-number 0xEF (write_number na n) t x.0 refl
  starts_bom-write (string s) pretty indent t x = refl
  starts_bom-write (array no_items) pretty indent t x = refl
  starts_bom-write (array (item v xs)) pretty indent t x = refl
  starts_bom-write (object no_members) pretty indent t x = refl
  starts_bom-write (object (member k v ms)) pretty indent t x = refl

  -- Nothing that is written starts with a byte order mark.
  pub has_bom-write :
      (v : Value na) (pretty : Bool) (indent : ℕ) (t : Text)
      → IsExact na v
      → has_bom na (write na pretty indent v ++ t) ≡ false
  has_bom-write v pretty indent t x =
      no_bom (write na pretty indent v ++ t) (starts_bom-write v pretty indent t x)
