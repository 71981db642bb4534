-- ===== src/Json/Fuel.antt =====
-- The fuel that the parser of src/core/Json.cpp is modelled with is enough for every text.
use infinity_clicker.Base.{
  ℕ, zero, suc, ◌+◌, ◌*◌, ◌<◌, ◌≤◌, ◌≡◌, refl, arith, Bool, true, false, not, if◌then◌else◌, ltb,
  ◌==◌, [], ◌∷◌, ◌++◌, Option, none, some, length,
}
use infinity_clicker.Json.{
  Text, NumArith, Value, null, bool, string, no_items, item, no_members, member,
}
use infinity_clicker.Json.Lexer.{
  Parsed, ok, failed, ParseError, out_of_fuel, starts_with, skip, strip, literal, has_digit,
  take_number, number_chars, parse_number, hex_value, hex_digits, hex4, Piece, closed, piece, bad,
  pair_end, unescape, string_step, read_string, parse_string,
}
use infinity_clicker.Json.Parser.{
  ◌>>=◌, tail_of, parse_colon, parse_key, after_value, parse_value, parse_items, parse_members,
  at_end, run_parser, has_bom, parse,
}
use infinity_clicker.Json.Fuel.Tokens.{
  ran_out, Ends, Ends-weaken, Ends-bind, Ends-if, length-skip, length-tail_of, literal-Ends,
  parse_number-Ends, parse_string-Ends, parse_key-Ends, parse_colon-Ends,
}
pub mod Tokens

module _ (na : NumArith) where
  after_value-Ends {ℓ} :
      {A : Type ℓ} (close : ℕ) (e e' : ParseError) (a : A) (more : Text → Parsed A)
      → (n : ℕ) (ts : Text) → length ts < n
      → ran_out e ≡ false
      → ran_out e' ≡ false
      → ((rest : Text) → length rest < length ts → Ends n (more rest))
      → Ends n (after_value na close e e' a more ts)
  after_value-Ends close e e' a more n [] l h h' k = h
  after_value-Ends close e e' a more n (c ∷ cs) l h h' k =
      let start = skip false cs in
      let shorter = length-skip false cs in
      Ends-if n (c == b',') _ _
        (λ _.
          Ends-if n (starts_with close start) _ _
            (λ t. omega (arith, shorter, length-tail_of close start t))
            (λ _. k start (omega (arith, shorter))))
        (λ _. Ends-if n (c == close) _ _ (λ _. omega arith) (λ _. h'))

  abbrev scalar : ℕ → Text → Parsed (Value na)
  scalar c cs =
      let text = parse_string cs >>= λ s rest. ok (string s) rest in
      if c == b'"'
      then text
      else if c == b't'
      then literal (b't' ∷ b'r' ∷ b'u' ∷ b'e' ∷ []) (bool true) (c ∷ cs)
      else if c == b'f'
      then literal (b'f' ∷ b'a' ∷ b'l' ∷ b's' ∷ b'e' ∷ []) (bool false) (c ∷ cs)
      else if c == b'n'
      then literal (b'n' ∷ b'u' ∷ b'l' ∷ b'l' ∷ []) null (c ∷ cs)
      else parse_number na (c ∷ cs)

  scalar-Ends : (c : ℕ) (cs : Text) → Ends (suc (length cs)) (scalar c cs)
  scalar-Ends c cs =
      let n = suc (length cs) in
      Ends-if n (c == b'"') _ _
        (λ _. Ends-bind _ n (parse_string cs) _ (parse_string-Ends cs) (λ s rest k. omega arith))
        (λ _.
          Ends-if n (c == b't') _ _ (λ _. literal-Ends _ _ _ (c ∷ cs))
            (λ _.
              Ends-if n (c == b'f') _ _ (λ _. literal-Ends _ _ _ (c ∷ cs))
                (λ _.
                  Ends-if n (c == b'n') _ _ (λ _. literal-Ends _ _ _ (c ∷ cs))
                    (λ _. parse_number-Ends na (c ∷ cs)))))

  mutual
    unfolding parse_value

    value-Ends :
        (f depth : ℕ) (ts : Text) → 2 * length ts < f → Ends (length ts) (parse_value na f depth ts)
    value-Ends zero depth ts l = absurd (omega arith)
    value-Ends (suc f) depth [] l = ground arith
    value-Ends (suc f) depth (c ∷ cs) l =
        let start = skip false cs in
        let shorter = length-skip false cs in
        let n = suc (length cs) in
        Ends-if n (ltb 64 depth) _ _ (λ _. refl)
          (λ _.
            Ends-if n (c == b'{') _ _
              (λ _.
                Ends-if n (starts_with b'}' start) _ _
                  (λ t. omega (arith, shorter, length-tail_of b'}' start t))
                  (λ _.
                    Ends-bind _ n (parse_members na f depth start) _
                      (members-Ends f depth start (omega (arith, shorter)))
                      (λ ms rest k. omega (arith, shorter))))
              (λ _.
                Ends-if n (c == b'[') _ _
                  (λ _.
                    Ends-if n (starts_with b']' start) _ _
                      (λ t. omega (arith, shorter, length-tail_of b']' start t))
                      (λ _.
                        Ends-bind _ n (parse_items na f depth start) _
                          (items-Ends f depth start (omega (arith, shorter)))
                          (λ xs rest k. omega (arith, shorter))))
                  (λ _. scalar-Ends c cs)))

    items-Ends :
        (f depth : ℕ) (ts : Text)
        → 2 * length ts + 1 < f
        → Ends (suc (length ts)) (parse_items na f depth ts)
    items-Ends zero depth ts l = absurd (omega arith)
    items-Ends (suc f) depth ts l =
        let start = skip false ts in
        let shorter = length-skip false ts in
        Ends-bind _ (suc (length ts)) (parse_value na f (depth + 1) start) _
          (value-Ends f (depth + 1) start (omega (arith, shorter)))
          (λ v rest k.
            after_value-Ends b']' _ _ (item v no_items)
              (λ more. parse_items na f depth more >>= λ xs end. ok (item v xs) end)
              (suc (length ts)) (skip false rest) (omega (arith, shorter, length-skip false rest))
              refl refl
              (λ more m.
                Ends-bind _ (suc (length ts)) (parse_items na f depth more)
                  (λ xs end. ok (item v xs) end)
                  (items-Ends f depth more (omega (arith, shorter, length-skip false rest)))
                  (λ xs end j. omega (arith, shorter, length-skip false rest))))

    members-Ends :
        (f depth : ℕ) (ts : Text)
        → 2 * length ts + 1 < f
        → Ends (suc (length ts)) (parse_members na f depth ts)
    members-Ends zero depth ts l = absurd (omega arith)
    members-Ends (suc f) depth ts l =
        Ends-bind _ (suc (length ts)) (parse_key ts) _ (parse_key-Ends ts) (λ k rest i.
          Ends-bind _ (suc (length ts)) (parse_colon rest) _ (parse_colon-Ends rest) (λ _ rest' i'.
            Ends-bind _ (suc (length ts)) (parse_value na f (depth + 1) rest') _
              (value-Ends f (depth + 1) rest' (omega arith))
              (λ v rest'' i''.
                after_value-Ends b'}' _ _ (member k v no_members)
                  (λ more. parse_members na f depth more >>= λ ms end. ok (member k v ms) end)
                  (suc (length ts)) (skip false rest'') (omega (arith, length-skip false rest''))
                  refl refl
                  (λ more m.
                    Ends-bind _ (suc (length ts)) (parse_members na f depth more)
                      (λ ms end. ok (member k v ms) end)
                      (members-Ends f depth more (omega (arith, length-skip false rest'')))
                      (λ ms end j. omega (arith, length-skip false rest''))))))

  abbrev pub final : Parsed (Value na) → Bool
  final (ok v rest) = true
  final (failed e rest) = not (ran_out e)

  at_end-Ends : (v : Value na) (t : Text) → Ends 1 (at_end na v t)
  at_end-Ends v [] = omega arith
  at_end-Ends v (c ∷ cs) = refl

  final-Ends : (n : ℕ) (r : Parsed (Value na)) → Ends n r → final r ≡ true
  final-Ends n (ok v rest) h = refl
  final-Ends n (failed e rest) h = rw h

  run_parser-ends : (ts : Text) → final (run_parser na ts) ≡ true
  unfolding run_parser
  run_parser-ends ts =
      let start = skip false ts in
      final-Ends 1 (run_parser na ts) (
        Ends-bind _ 1 (parse_value na (2 * length ts + 1) 0 start) _
          (value-Ends (2 * length ts + 1) 0 start (omega (arith, length-skip false ts)))
          (λ v rest h. at_end-Ends v (skip false rest)))

  -- The parser ends on every text with a value or one of the errors of the code: the fuel that its
  -- loops and its recursion are given is never used up.
  pub parse-ends : (ts : Text) → final (parse na ts) ≡ true
  unfolding parse run_parser
  parse-ends ts = run_parser-ends (if has_bom na ts then tail_of (tail_of (tail_of ts)) else ts)
