-- ===== src/Json/RoundTrip/Tokens.antt =====
-- White space, strings and numbers as src/core/Json.cpp writes them, read back with any text behind.
use infinity_clicker.Base.{
  ℕ, zero, suc, ◌*◌, ◌/◌, ◌%◌, ◌<◌, ◌≤◌, ◌≡◌, ◌∙◌, refl, ap, arith, Bool, true, false, ◌&&◌, ◌||◌,
  not, if◌then◌else◌, ◌==◌, length-append, [], ◌∷◌, ◌++◌, some, length, replicate,
}
use mathlib.Core.List.{append-nil, append_assoc}
use infinity_clicker.Json.{Text, NumArith, number}
use infinity_clicker.Json.Writer.{hex_digit, escape, escaped, new_line}
use infinity_clicker.Json.Lexer.{
  ok, skip, is_space, is_digit, is_sign, is_exponent, in_number, take_number, has_digit,
  number_chars, parse_number, hex_value, hex_digits, hex4, append_utf8, piece, pair_end, unescape,
  string_step, read_string, parse_string,
}

pub skip_spaces : (n : ℕ) (t : Text) → skip false (replicate n 32 ++ t) ≡ skip false t
unfolding skip
skip_spaces zero t = refl
skip_spaces (suc n) t = skip_spaces n t

pub skip-new_line :
    (pretty : Bool) (i : ℕ) (t : Text) → skip false (new_line pretty i ++ t) ≡ skip false t
unfolding skip new_line
skip-new_line true i t = skip_spaces (i * 2) t
skip-new_line false i t = refl

pub skip_solid :
    (c : ℕ) (t : Text) → is_space c ≡ false → (c == b'/') ≡ false → skip false (c ∷ t) ≡ c ∷ t
unfolding skip
skip_solid c t s n = ground arith

hex_value-hex_digit : (n : ℕ) → n < 16 → hex_value (hex_digit n) ≡ some n
unfolding hex_value
hex_value-hex_digit n h = ground arith

hex_value-zero : hex_value b'0' ≡ some 0
unfolding hex_value
hex_value-zero = refl

hex4-control :
    (c : ℕ) (rest : Text)
    → c < 32
    → hex4 (b'0' ∷ b'0' ∷ hex_digit (c / 16) ∷ hex_digit (c % 16) ∷ rest) ≡ ok c rest
unfolding hex4 hex_digits
hex4-control c rest h =
    ground (arith, hex_value-zero, hex_value-hex_digit (c / 16), hex_value-hex_digit (c % 16))

pair_end-low : (cp : ℕ) (rest : Text) → cp < 128 → pair_end cp rest ≡ piece (cp ∷ []) rest
unfolding pair_end append_utf8
pair_end-low cp [] h = ground arith
pair_end-low cp (b ∷ []) h = ground arith
pair_end-low cp (b ∷ u ∷ rest) h = ground arith

string_step-escape : (c : ℕ) (rest : Text) → string_step (escape c ++ rest) ≡ piece (c ∷ []) rest
unfolding string_step escape unescape
string_step-escape c rest = ground (arith, hex4-control c rest, pair_end-low c rest)

read_string_piece :
    (f : ℕ) (acc ts s rest : Text)
    → string_step ts ≡ piece s rest
    → read_string (suc f) acc ts ≡ read_string f (acc ++ s) rest
unfolding read_string
read_string_piece f acc ts s rest h = rw (h, read_string)

read_string-escaped :
    (s acc rest : Text) (f : ℕ)
    → length s < f
    → read_string f acc (escaped s ++ (b'"' ∷ rest)) ≡ ok (acc ++ s) rest
unfolding read_string
read_string-escaped s acc rest zero h = absurd (omega arith)
read_string-escaped [] acc rest (suc f) h = unfold string_step in rw append-nil
read_string-escaped (c ∷ s) acc rest (suc f) h =
    let step = string_step-escape c (escaped s ++ (b'"' ∷ rest)) in
    let tail = read_string-escaped s (acc ++ (c ∷ [])) rest f (omega arith) in
    ap (read_string (suc f) acc) (append_assoc (escape c) (escaped s) (b'"' ∷ rest))
    ∙ read_string_piece f acc _ (c ∷ []) _ step
    ∙ tail
    ∙ ap (λ a. ok a rest) (append_assoc acc (c ∷ []) s)

length-escape_pos : (c : ℕ) → 1 ≤ length (escape c)
unfolding escape
length-escape_pos c = ground arith

length-escaped : (s : Text) → length s ≤ length (escaped s)
length-escaped [] = omega arith
length-escaped (c ∷ s) =
    omega (arith, length-append (escape c) (escaped s), length-escape_pos c, length-escaped s)

-- A string is read back, whatever its bytes are.
pub parse_string-escaped : (s rest : Text) → parse_string (escaped s ++ (b'"' ∷ rest)) ≡ ok s rest
unfolding parse_string
parse_string-escaped s rest =
    read_string-escaped s [] rest _
      (omega (arith, length-append (escaped s) (b'"' ∷ rest), length-escaped s))

abbrev pub all_number : ℕ → Text → Bool
all_number prev [] = true
all_number prev (c ∷ w) = in_number prev c && all_number c w

-- The text is one that the parser takes for a number, to its end.
abbrev pub number_word : Text → Bool
number_word [] = false
number_word (c ∷ w) =
    (if is_sign c then all_number c w else all_number 0 (c ∷ w)) && has_digit (c ∷ w)

-- The text cannot go on a number.
abbrev pub ends_number : Text → Bool
ends_number [] = true
ends_number (c ∷ t) = not (is_digit c || c == b'.' || is_exponent c || is_sign c)

take_number-append :
    (prev : ℕ) (w rest : Text)
    → all_number prev w ≡ true
    → ends_number rest ≡ true
    → take_number prev (w ++ rest) ≡ (w, rest)
unfolding take_number
take_number-append prev [] [] a e = refl
take_number-append prev [] (c ∷ t) a e = ground arith
take_number-append prev (c ∷ w) rest a e = ground (arith, take_number-append c w rest)

number_chars-append :
    (w rest : Text)
    → number_word w ≡ true
    → ends_number rest ≡ true
    → number_chars (w ++ rest) ≡ (w, rest)
unfolding number_chars
number_chars-append [] rest a e = absurd (cc)
number_chars-append (c ∷ w) rest a e =
    ground (arith, take_number-append c w rest, take_number-append 0 (c ∷ w) rest)

number_word-has_digit : (w : Text) → number_word w ≡ true → has_digit w ≡ true
number_word-has_digit [] h = absurd (cc)
number_word-has_digit (c ∷ w) h = ground arith

pub parse_number-append :
    (na : NumArith) (n : na.Number) (w rest : Text)
    → number_word w ≡ true
    → ends_number rest ≡ true
    → na.read w ≡ some n
    → na.finite n ≡ true
    → parse_number na (w ++ rest) ≡ ok (number n) rest
unfolding parse_number
parse_number-append na n w rest a e r f =
    ground (arith, number_chars-append w rest, number_word-has_digit w)

-- A number is not taken for white space or a comment.
pub skip-number : (w t : Text) → number_word w ≡ true → skip false (w ++ t) ≡ w ++ t
skip-number [] t h = absurd (cc)
skip-number (c ∷ w) t h = skip_solid c (w ++ t) (ground arith) (ground arith)
