-- ===== src/Json/Fuel/Tokens.antt =====
-- Each token that the parser of src/core/Json.cpp reads is shorter than the text, and the fuel of the
-- loop over a string is enough.
use infinity_clicker.Base.{
  ℕ, zero, suc, ◌+◌, ◌*◌, ◌<◌, ◌≤◌, ◌≡◌, refl, arith, Bool, true, false, if◌then◌else◌, [], ◌∷◌,
  ◌++◌, Option, none, some, length,
}
use infinity_clicker.Json.{Text, NumArith}
use infinity_clicker.Json.Lexer.{
  Parsed, ok, failed, ParseError, out_of_fuel, starts_with, skip, strip, literal, has_digit,
  take_number, number_chars, parse_number, hex_value, hex_digits, hex4, Piece, closed, piece, bad,
  pair_end, unescape, string_step, read_string, parse_string,
}
use infinity_clicker.Json.Parser.{◌>>=◌, tail_of, parse_colon, parse_key}

abbrev pub ran_out : ParseError → Bool
ran_out out_of_fuel = true
ran_out _ = false

-- What was not read is shorter than `n`, and a failure is one of the code's own.
abbrev pub Ends {ℓ} : {A : Type ℓ} → ℕ → Parsed A → Type 0
Ends n (ok a rest) = length rest < n
Ends n (failed e rest) = ran_out e ≡ false

pub Ends-weaken {ℓ} : {A : Type ℓ} (m n : ℕ) (r : Parsed A) → m ≤ n → Ends m r → Ends n r
Ends-weaken m n (ok a rest) l h = omega arith
Ends-weaken m n (failed e rest) l h = h

pub Ends-bind {ℓ κ} :
    {A : Type ℓ} {B : Type κ} (m n : ℕ) (r : Parsed A) (g : A → Text → Parsed B)
    → Ends m r
    → ((a : A) (rest : Text) → length rest < m → Ends n (g a rest))
    → Ends n (r >>= g)
Ends-bind m n (ok a rest) g h k = k a rest h
Ends-bind m n (failed e rest) g h k = h

pub Ends-if {ℓ} :
    {A : Type ℓ} (n : ℕ) (b : Bool) (x y : Parsed A)
    → (b ≡ true → Ends n x)
    → (b ≡ false → Ends n y)
    → Ends n (if b then x else y)
Ends-if n true x y hx hy = hx refl
Ends-if n false x y hx hy = hy refl

pub length-skip : (comment : Bool) (ts : Text) → length (skip comment ts) ≤ length ts
unfolding skip
length-skip comment [] = omega arith
length-skip comment (c ∷ cs) = ground (arith, length-skip true cs, length-skip false cs)

pub length-tail_of : (c : ℕ) (ts : Text) → starts_with c ts ≡ true → length (tail_of ts) < length ts
length-tail_of c [] h = absurd (cc)
length-tail_of c (d ∷ ts) h = omega arith

length-strip : (w s rest : Text) → strip w s ≡ some rest → length w + length rest ≡ length s
unfolding strip
length-strip [] s rest h = ground arith
length-strip (a ∷ w) [] rest h = absurd (cc)
length-strip (a ∷ w) (b ∷ s) rest h = ground (arith, length-strip w s rest)

pub literal-Ends {ℓ} :
    {A : Type ℓ} (c : ℕ) (w : Text) (a : A) (ts : Text) → Ends (length ts) (literal (c ∷ w) a ts)
unfolding literal
literal-Ends c w a ts = cases (strip (c ∷ w) ts) refl
  where
    cases : (o : Option Text) → strip (c ∷ w) ts ≡ o → Ends (length ts) (literal (c ∷ w) a ts)
    cases none h = rw h refl
    cases (some rest) h = rw h (omega (arith, length-strip (c ∷ w) ts rest h))

length-take_number :
    (prev : ℕ) (ts : Text)
    → length (take_number prev ts).0 + length (take_number prev ts).1 ≡ length ts
unfolding take_number
length-take_number prev [] = refl
length-take_number prev (c ∷ cs) = ground (arith, length-take_number c cs)

length-number_chars :
    (ts : Text) → length (number_chars ts).0 + length (number_chars ts).1 ≡ length ts
unfolding number_chars
length-number_chars [] = refl
length-number_chars (c ∷ cs) =
    ground (arith, length-take_number c cs, length-take_number 0 (c ∷ cs))

length-has_digit : (w : Text) → has_digit w ≡ true → 1 ≤ length w
length-has_digit [] h = absurd (cc)
length-has_digit (c ∷ w) h = omega arith

pub parse_number-Ends : (na : NumArith) (ts : Text) → Ends (length ts) (parse_number na ts)
unfolding parse_number
parse_number-Ends na ts =
    ground (arith, length-number_chars ts, length-has_digit (number_chars ts).0)

hex_digits-Ends : (n v : ℕ) (ts : Text) → Ends (suc (length ts)) (hex_digits n v ts)
unfolding hex_digits
hex_digits-Ends zero v ts = omega arith
hex_digits-Ends (suc n) v [] = refl
hex_digits-Ends (suc n) v (c ∷ cs) =
    cases (hex_value c) refl (λ d. hex_digits-Ends n (v * 16 + d) cs)
  where
    cases :
        (o : Option ℕ)
        → hex_value c ≡ o
        → ((d : ℕ) → Ends (suc (length cs)) (hex_digits n (v * 16 + d) cs))
        → Ends (suc (suc (length cs))) (hex_digits (suc n) v (c ∷ cs))
    cases none h more = rw (h, hex_digits) refl
    cases (some d) h more =
        rw (h, hex_digits) (Ends-weaken _ _ (hex_digits n (v * 16 + d) cs) (omega arith) (more d))

hex4-Ends : (ts : Text) → Ends (suc (length ts)) (hex4 ts)
unfolding hex4
hex4-Ends ts = ground (arith, hex_digits-Ends 4 0 ts)

-- A round of `parseString` goes forward.
abbrev Shrinks : ℕ → Piece → Type 0
Shrinks n (closed rest) = length rest < n
Shrinks n (piece s rest) = length rest < n
Shrinks n (bad e rest) = ran_out e ≡ false

pair_end-Shrinks : (cp : ℕ) (ts : Text) → Shrinks (suc (length ts)) (pair_end cp ts)
unfolding pair_end
pair_end-Shrinks cp [] = omega arith
pair_end-Shrinks cp (b ∷ []) = omega arith
pair_end-Shrinks cp (b ∷ u ∷ rest) = ground (arith, hex4-Ends rest)

unescape-Shrinks : (e : ℕ) (cs : Text) → Shrinks (suc (length cs)) (unescape e cs)
unfolding unescape
unescape-Shrinks e cs = cases (hex4 cs) refl (hex4-Ends cs)
  where
    cases :
        (r : Parsed ℕ)
        → hex4 cs ≡ r
        → Ends (suc (length cs)) r
        → Shrinks (suc (length cs)) (unescape e cs)
    cases (failed x rest) h k = ground arith
    cases (ok cp rest) h k = ground (arith, pair_end-Shrinks cp rest)

string_step-Shrinks : (ts : Text) → Shrinks (length ts) (string_step ts)
unfolding string_step
string_step-Shrinks [] = refl
string_step-Shrinks (c ∷ []) = ground arith
string_step-Shrinks (c ∷ e ∷ cs) = ground (arith, unescape-Shrinks e cs)

read_string-Ends : (f : ℕ) (acc ts : Text) → length ts < f → Ends (length ts) (read_string f acc ts)
unfolding read_string
read_string-Ends zero acc ts h = absurd (omega arith)
read_string-Ends (suc f) acc ts h =
    cases (string_step ts) refl (string_step-Shrinks ts)
      (λ s rest l. read_string-Ends f (acc ++ s) rest l)
  where
    cases :
        (p : Piece)
        → string_step ts ≡ p
        → Shrinks (length ts) p
        → ((s rest : Text) → length rest < f → Ends (length rest) (read_string f (acc ++ s) rest))
        → Ends (length ts) (read_string (suc f) acc ts)
    cases (closed rest) e k more = rw (e, read_string) k
    cases (bad x rest) e k more = rw (e, read_string) k
    cases (piece s rest) e k more =
        rw (e, read_string)
          (Ends-weaken _ _ (read_string f (acc ++ s) rest) (omega arith)
            (more s rest (omega arith)))

pub parse_string-Ends : (ts : Text) → Ends (length ts) (parse_string ts)
unfolding parse_string
parse_string-Ends ts = read_string-Ends (length ts + 1) [] ts (omega arith)

pub parse_key-Ends : (ts : Text) → Ends (length ts) (parse_key ts)
unfolding parse_key
parse_key-Ends ts =
    let start = skip false ts in
    let shorter = length-skip false ts in
    Ends-if (length ts) (starts_with b'"' start) (parse_string (tail_of start)) _
      (λ h.
        Ends-weaken _ _ (parse_string (tail_of start))
          (omega (arith, shorter, length-tail_of b'"' start h)) (parse_string-Ends (tail_of start)))
      (λ h. refl)

pub parse_colon-Ends : (ts : Text) → Ends (length ts) (parse_colon ts)
unfolding parse_colon
parse_colon-Ends ts =
    let start = skip false ts in
    ground
      (arith, length-skip false ts, length-tail_of b':' start, length-skip false (tail_of start))
