-- ===== src/Json/Lexer.antt =====
-- The tokens of the parser in src/core/Json.cpp: white space, literals, numbers and strings. The
-- position `p_` is what is left of the text; a failure keeps what was left when it was found.
use infinity_clicker.Base.{
  ℕ, zero, suc, ◌+◌, ◌-◌, ◌*◌, ◌/◌, ◌%◌, Bool, false, ◌&&◌, ◌||◌, not, if◌then◌else◌, ltb, leb,
  ◌==◌, [], ◌∷◌, ◌++◌, Option, none, some, length,
}
use infinity_clicker.Json.{Text, NumArith, Value, number}

pub data ParseError : Type 0 where
  nesting_too_deep unexpected_end invalid_literal invalid_number bad_u_escape bad_hex_digit :
      ParseError
  bad_escape unterminated_string unterminated_array expected_comma_or_bracket expected_key :
      ParseError
  expected_colon unterminated_object expected_comma_or_brace trailing_characters : ParseError
  -- has no counterpart in the code
  out_of_fuel : ParseError

pub data Parsed {ℓ} (A : Type ℓ) : Type ℓ where
  ok : A → Text → Parsed A
  failed : ParseError → Text → Parsed A

abbrev pub is_space : ℕ → Bool
is_space c = c == 32 || c == 9 || c == 10 || c == 13

abbrev pub starts_with : ℕ → Text → Bool
starts_with c [] = false
starts_with c (d ∷ s) = d == c

-- `skipWs`, outside a comment or inside one.
unfoldable pub skip : Bool → Text → Text
skip comment [] = []
skip comment (c ∷ cs) =
    let inside = if comment then not (c == 10) else not (is_space c) in
    let rest = skip inside cs in
    if comment || is_space c || (c == b'/' && starts_with b'/' cs) then rest else c ∷ cs

-- What follows a prefix of the text, if it has the prefix.
unfoldable pub strip : Text → Text → Option Text
strip [] s = some s
strip (a ∷ w) [] = none
strip (a ∷ w) (b ∷ s) = if a == b then strip w s else none

abbrev literal_end {ℓ} : {A : Type ℓ} → A → Text → Option Text → Parsed A
literal_end a ts none = failed invalid_literal ts
literal_end a ts (some rest) = ok a rest

unfoldable pub literal {ℓ} : {A : Type ℓ} → Text → A → Text → Parsed A
literal word a ts = literal_end a ts (strip word ts)

abbrev pub is_digit : ℕ → Bool
is_digit c = leb b'0' c && leb c b'9'

abbrev pub is_sign : ℕ → Bool
is_sign c = c == b'-' || c == b'+'

abbrev pub is_exponent : ℕ → Bool
is_exponent c = c == b'e' || c == b'E'

-- The test of the loop in `parseNumber`; `prev` is the character before, 0 at the start.
abbrev pub in_number : ℕ → ℕ → Bool
in_number prev c = is_digit c || c == b'.' || is_exponent c || (is_sign c && is_exponent prev)

unfoldable pub take_number : ℕ → Text → Text × Text
take_number prev [] = ([], [])
take_number prev (c ∷ cs) =
    let (word, rest) = take_number c cs in
    if in_number prev c then (c ∷ word, rest) else ([], c ∷ cs)

abbrev pub has_digit : Text → Bool
has_digit [] = false
has_digit (c ∷ s) = is_digit c || has_digit s

-- The characters of a number: an optional sign, then what the loop takes.
unfoldable pub number_chars : Text → Text × Text
number_chars [] = ([], [])
number_chars (c ∷ cs) =
    let (word, rest) = take_number c cs in
    if is_sign c then (c ∷ word, rest) else take_number 0 (c ∷ cs)

module _ (na : NumArith) where
  abbrev number_end : Option na.Number → Text → Parsed (Value na)
  number_end none rest = failed invalid_number rest
  number_end (some n) rest = if na.finite n then ok (number n) rest else failed invalid_number rest

  unfoldable pub parse_number : Text → Parsed (Value na)
  parse_number ts =
      let (word, rest) = number_chars ts in
      if not (has_digit word) then failed invalid_number rest else number_end (na.read word) rest

unfoldable pub append_utf8 : ℕ → Text
append_utf8 cp =
    if ltb cp 0x80
    then cp ∷ []
    else if ltb cp 0x800
    then (0xC0 + cp / 64) ∷ (0x80 + cp % 64) ∷ []
    else if ltb cp 0x10000
    then (0xE0 + cp / 4096) ∷ (0x80 + cp / 64 % 64) ∷ (0x80 + cp % 64) ∷ []
    else (0xF0 + cp / 262144)
      ∷ (0x80 + cp / 4096 % 64)
      ∷ (0x80 + cp / 64 % 64)
      ∷ (0x80 + cp % 64)
      ∷ []

unfoldable pub hex_value : ℕ → Option ℕ
hex_value c =
    if leb b'0' c && leb c b'9'
    then some (c - 48)
    else if leb b'a' c && leb c b'f'
    then some (c - 87)
    else if leb b'A' c && leb c b'F'
    then some (c - 55)
    else none

-- The loop of `hex4`: `n` digits to go.
abbrev hex_next : (ℕ → Text → Parsed ℕ) → ℕ → Option ℕ → Text → Parsed ℕ
hex_next more v none rest = failed bad_hex_digit rest
hex_next more v (some d) rest = more (v * 16 + d) rest

unfoldable pub hex_digits : ℕ → ℕ → Text → Parsed ℕ
hex_digits zero v ts = ok v ts
hex_digits (suc n) v [] = failed bad_u_escape []
hex_digits (suc n) v (c ∷ cs) = hex_next (hex_digits n) v (hex_value c) cs

unfoldable pub hex4 : Text → Parsed ℕ
hex4 ts = if ltb (length ts) 4 then failed bad_u_escape ts else hex_digits 4 0 ts

-- One round of the loop in `parseString`.
pub data Piece : Type 0 where
  closed : Text → Piece
  piece : Text → Text → Piece
  bad : ParseError → Text → Piece

abbrev is_high : ℕ → Bool
is_high cp = leb 0xD800 cp && leb cp 0xDBFF

abbrev is_low : ℕ → Bool
is_low cp = leb 0xDC00 cp && leb cp 0xDFFF

abbrev with_low : ℕ → Parsed ℕ → Piece
with_low cp (failed e rest) = bad e rest
with_low cp (ok lo rest) =
    piece (append_utf8 (if is_low lo then 0x10000 + (cp - 0xD800) * 1024 + (lo - 0xDC00) else cp))
      rest

-- A second escape after the first half of a surrogate pair.
unfoldable pub pair_end : ℕ → Text → Piece
pair_end cp (b ∷ u ∷ rest) =
    if is_high cp && leb 4 (length rest) && b == b'\\' && u == b'u'
    then with_low cp (hex4 rest)
    else piece (append_utf8 cp) (b ∷ u ∷ rest)
pair_end cp rest = piece (append_utf8 cp) rest

abbrev unicode : Parsed ℕ → Piece
unicode (failed e rest) = bad e rest
unicode (ok cp rest) = pair_end cp rest

unfoldable pub unescape : ℕ → Text → Piece
unescape e cs =
    if e == b'"' || e == b'\\' || e == b'/'
    then piece (e ∷ []) cs
    else if e == b'b'
    then piece (8 ∷ []) cs
    else if e == b'f'
    then piece (12 ∷ []) cs
    else if e == b'n'
    then piece (10 ∷ []) cs
    else if e == b'r'
    then piece (13 ∷ []) cs
    else if e == b't'
    then piece (9 ∷ []) cs
    else if e == b'u'
    then unicode (hex4 cs)
    else bad bad_escape cs

abbrev after_backslash : Text → Piece
after_backslash [] = bad unterminated_string []
after_backslash (e ∷ cs) = unescape e cs

unfoldable pub string_step : Text → Piece
string_step [] = bad unterminated_string []
string_step (c ∷ cs) =
    if c == b'"' then closed cs else if c == b'\\' then after_backslash cs else piece (c ∷ []) cs

unfoldable pub read_string : ℕ → Text → Text → Parsed Text
read_string zero acc ts = failed out_of_fuel ts
read_string (suc f) acc ts = elim (string_step ts) [
  | closed rest ↦ ok acc rest
  | piece s rest ↦ read_string f (acc ++ s) rest
  | bad e rest ↦ failed e rest
]

-- `parseString`, after the opening quote.
unfoldable pub parse_string : Text → Parsed Text
parse_string ts = read_string (length ts + 1) [] ts
