-- ===== src/Json/Parser.antt =====
-- The parser of src/core/Json.cpp. Each call of `parseValue` and each round of the loops of
-- `parseArray` and `parseObject` costs a unit of fuel; `parse` gives enough.
use infinity_clicker.Base.{
  ℕ, zero, suc, ◌+◌, ◌*◌, Bool, true, false, ◌&&◌, if◌then◌else◌, ltb, ◌==◌, [], ◌∷◌, length,
}
use infinity_clicker.Json.{
  Text, NumArith, Value, Items, Members, null, bool, string, array, object, no_items, item,
  no_members, member,
}
use infinity_clicker.Json.Lexer.{
  Parsed, ok, failed, ParseError, out_of_fuel, nesting_too_deep, unexpected_end, unterminated_array,
  expected_comma_or_bracket, expected_key, expected_colon, unterminated_object,
  expected_comma_or_brace, trailing_characters, skip, starts_with, literal, parse_number,
  parse_string,
}

-- What is read is handed to the rest of the parser.
infixl 5 ◌>>=◌
abbrev pub ◌>>=◌ {ℓ κ} : {A : Type ℓ} {B : Type κ} → Parsed A → (A → Text → Parsed B) → Parsed B
ok a rest >>= f = f a rest
failed e rest >>= f = failed e rest

abbrev pub tail_of : Text → Text
tail_of [] = []
tail_of (c ∷ cs) = cs

-- `parseObject` between a key and its value.
unfoldable pub parse_colon : Text → Parsed (Unit {0})
parse_colon ts =
    let rest = skip false ts in
    if starts_with b':' rest then ok tt (skip false (tail_of rest)) else failed expected_colon rest

unfoldable pub parse_key : Text → Parsed Text
parse_key ts =
    let rest = skip false ts in
    if starts_with b'"' rest then parse_string (tail_of rest) else failed expected_key rest

module _ (na : NumArith) where
  -- What follows a value in an array or an object: the end, or a comma, which may stand before the
  -- end too. `more` reads the rest.
  abbrev pub after_value {ℓ} :
      {A : Type ℓ} → ℕ → ParseError → ParseError → A → (Text → Parsed A) → Text → Parsed A
  after_value close unterminated expected empty more [] = failed unterminated []
  after_value close unterminated expected empty more (c ∷ cs) =
      let after_comma = skip false cs in
      let rest = more after_comma in
      if c == b','
      then (if starts_with close after_comma then ok empty (tail_of after_comma) else rest)
      else if c == close
      then ok empty cs
      else failed expected (c ∷ cs)

  unfoldable mutual
    pub parse_value : ℕ → ℕ → Text → Parsed (Value na)
    parse_value zero depth ts = failed out_of_fuel ts
    parse_value (suc f) depth [] =
        if ltb 64 depth then failed nesting_too_deep [] else failed unexpected_end []
    parse_value (suc f) depth (c ∷ cs) =
        let start = skip false cs in
        let elements = parse_items f depth start >>= λ xs rest. ok (array xs) rest in
        let fields = parse_members f depth start >>= λ ms rest. ok (object ms) rest in
        let text = parse_string cs >>= λ s rest. ok (string s) rest in
        if ltb 64 depth
        then failed nesting_too_deep (c ∷ cs)
        else if c == b'{'
        then (if starts_with b'}' start then ok (object no_members) (tail_of start) else fields)
        else if c == b'['
        then (if starts_with b']' start then ok (array no_items) (tail_of start) else elements)
        else if c == b'"'
        then text
        else if c == b't'
        then literal (b't' ∷ b'r' ∷ b'u' ∷ b'e' ∷ []) (bool true) (c ∷ cs)
        else if c == b'f'
        then literal (b'f' ∷ b'a' ∷ b'l' ∷ b's' ∷ b'e' ∷ []) (bool false) (c ∷ cs)
        else if c == b'n'
        then literal (b'n' ∷ b'u' ∷ b'l' ∷ b'l' ∷ []) null (c ∷ cs)
        else parse_number na (c ∷ cs)

    -- The loop of `parseArray`.
    pub parse_items : ℕ → ℕ → Text → Parsed (Items na)
    parse_items zero depth ts = failed out_of_fuel ts
    parse_items (suc f) depth ts = parse_value f (depth + 1) (skip false ts) >>= λ v rest.
        after_value b']' unterminated_array expected_comma_or_bracket (item v no_items)
          (λ more. parse_items f depth more >>= λ xs end. ok (item v xs) end) (skip false rest)

    -- The loop of `parseObject`.
    pub parse_members : ℕ → ℕ → Text → Parsed (Members na)
    parse_members zero depth ts = failed out_of_fuel ts
    parse_members (suc f) depth ts = parse_key ts >>= λ k rest. parse_colon rest >>= λ _ rest'.
        parse_value f (depth + 1) rest' >>= λ v rest''.
        after_value b'}' unterminated_object expected_comma_or_brace (member k v no_members)
          (λ more. parse_members f depth more >>= λ ms end. ok (member k v ms) end)
          (skip false rest'')

  abbrev pub at_end : Value na → Text → Parsed (Value na)
  at_end v [] = ok v []
  at_end v (c ∷ cs) = failed trailing_characters (c ∷ cs)

  -- `Parser::run`
  unfoldable pub run_parser : Text → Parsed (Value na)
  run_parser ts =
      parse_value (2 * length ts + 1) 0 (skip false ts) >>= λ v rest. at_end v (skip false rest)

  abbrev pub has_bom : Text → Bool
  has_bom (a ∷ b ∷ c ∷ s) = a == 0xEF && b == 0xBB && c == 0xBF
  has_bom _ = false

  unfoldable pub parse : Text → Parsed (Value na)
  parse ts = run_parser (if has_bom ts then tail_of (tail_of (tail_of ts)) else ts)
