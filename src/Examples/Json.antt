-- ===== src/Examples/Json.antt =====
-- JSON and profiles with whole numbers in place of floating point; a number is written as a tally.
use infinity_clicker.Base.{
  ℕ, zero, suc, ◌-◌, ◌≡◌, refl, arith, true, false, if◌then◌else◌, ◌==◌, [], ◌∷◌, Option, none,
  some, length, replicate, ℤ, pos, negsuc,
}
use infinity_clicker.Json.{
  Text, codes, NumArith, Value, bool, number, string, array, object, no_items, item, no_members,
  member,
}
use infinity_clicker.Json.Lexer.{ok}
use infinity_clicker.Json.Parser.{parse}
use infinity_clicker.Json.Writer.{
  stringify, write, is_flat, new_line, escape, item_comma, write_number,
}
use infinity_clicker.Json.Fuel.{final, parse-ends}
use infinity_clicker.Json.RoundTrip.{parse-stringify}
use infinity_clicker.Json.RoundTrip.Exact.{IsExact}
use infinity_clicker.Json.RoundTrip.Tokens.{all_number}

abbrev tally : ℕ → Text
tally n = b'0' ∷ replicate n b'1'

abbrev print_int : ℤ → Text
print_int (pos n) = tally n
print_int (negsuc n) = b'-' ∷ tally n

abbrev read_int : Text → Option ℤ
read_int [] = none
read_int (c ∷ s) = if c == b'-' then some (negsuc (length s - 1)) else some (pos (length s))

abbrev pub whole_numbers : NumArith
whole_numbers = record {
  Number = ℤ;
  zero_number = pos 0;
  finite = λ z. true;
  whole = λ z. true;
  print_whole = print_int;
  print_general = print_int;
  read = read_int;
  of_int = λ z. z;
  to_int = λ z. z;
}

all_number-replicate : (prev n : ℕ) → all_number prev (replicate n b'1') ≡ true
all_number-replicate prev zero = refl
all_number-replicate prev (suc n) = all_number-replicate b'1' n

pub length-replicate : (n c : ℕ) → length (replicate n c) ≡ n
length-replicate zero c = refl
length-replicate (suc n) c = omega (arith, length-replicate n c)

pub number-IsExact : (z : ℤ) → IsExact whole_numbers (number z)
unfolding write_number
number-IsExact (pos n) =
    (ground (arith, all_number-replicate b'0' n), ground (arith, length-replicate n b'1'), refl)
number-IsExact (negsuc n) =
    (ground (arith, all_number-replicate b'0' n), ground (arith, length-replicate n b'1'), refl)

-- `["a\"b", {"on": true}, -2, {}]`
abbrev nested : Value whole_numbers
nested = array (
    item (string (codes "a\"b")) (
      item (object (member (codes "on") (bool true) no_members))
        (item (number (negsuc 1)) (item (object no_members) no_items))))

parse-stringify_example : parse whole_numbers (stringify whole_numbers nested true) ≡ ok nested []
parse-stringify_example =
    parse-stringify whole_numbers nested true (_, ((_, _), (number-IsExact (negsuc 1), (_, _))))
      (omega arith)

parse-ends_example : final whole_numbers (parse whole_numbers (codes "[1, {\"a")) ≡ true
parse-ends_example = parse-ends whole_numbers (codes "[1, {\"a")

text_example : stringify whole_numbers nested false ≡ codes "[\"a\\\"b\",{\"on\":true},-01,{}]"
unfolding stringify write is_flat new_line escape item_comma write_number
text_example = refl
