-- ===== src/Json/RoundTrip/Fields.antt =====
-- One round of the parser of src/core/Json.cpp over a written member of an object.
use infinity_clicker.Base.{ℕ, suc, ◌+◌, ◌≡◌, ◌∙◌, refl, ap, Bool, true, false, [], ◌∷◌, ◌++◌}
use mathlib.Core.List.{append_assoc}
use infinity_clicker.Json.{Text, NumArith, Value, Members, no_members, member}
use infinity_clicker.Json.Writer.{escaped, write_string, new_line, colon, write, write_members}
use infinity_clicker.Json.Lexer.{
  ok, skip, starts_with, parse_string, unterminated_object, expected_comma_or_brace,
}
use infinity_clicker.Json.Parser.{
  ◌>>=◌, tail_of, parse_colon, parse_key, after_value, parse_value, parse_members,
}
use infinity_clicker.Json.RoundTrip.Exact.{IsExact}
use infinity_clicker.Json.RoundTrip.Steps.{append_assoc5, skip-write}
use infinity_clicker.Json.RoundTrip.Tokens.{skip-new_line, skip_solid, parse_string-escaped}

module _ (na : NumArith) where
  -- A member after its line break.
  abbrev pub member_text : Bool → ℕ → Text → Value na → Text → Text
  member_text pretty indent k v t =
      write_string k ++ (colon na pretty ++ (write na pretty indent v ++ t))

  parse_key-write : (k t ts : Text) → skip false ts ≡ write_string k ++ t → parse_key ts ≡ ok k t
  unfolding parse_key
  parse_key-write k t ts h =
      rw h (ap parse_string (append_assoc (escaped k) (b'"' ∷ []) t) ∙ parse_string-escaped k t)

  skip-colon :
      (pretty : Bool) (t : Text)
      → (skip false (colon na pretty ++ t) ≡ colon na pretty ++ t)
        × (skip false (tail_of (colon na pretty ++ t)) ≡ skip false t)
  unfolding skip
  skip-colon true t = (refl, refl)
  skip-colon false t = (refl, refl)

  starts-colon : (pretty : Bool) (t : Text) → starts_with b':' (colon na pretty ++ t) ≡ true
  starts-colon true t = refl
  starts-colon false t = refl

  parse_colon-write :
      (pretty : Bool) (t : Text) → parse_colon (colon na pretty ++ t) ≡ ok tt (skip false t)
  unfolding parse_colon
  parse_colon-write pretty t =
      rw (skip-colon pretty t).0 (rw (starts-colon pretty t) (rw (skip-colon pretty t).1))

  members_step :
      (pretty : Bool) (indent f depth : ℕ) (ts k : Text) (v : Value na) (t : Text)
      → skip false ts ≡ member_text pretty indent k v t
      → IsExact na v
      → parse_value na f (depth + 1) (write na pretty indent v ++ t) ≡ ok v t
      → parse_members na (suc f) depth ts
        ≡ after_value na b'}' unterminated_object expected_comma_or_brace
            (member k v no_members)
            (λ more. parse_members na f depth more >>= λ ms end. ok (member k v ms) end)
            (skip false t)
  unfolding parse_members
  members_step pretty indent f depth ts k v t s x h = rw (parse_key-write k _ ts s) (
      rw (parse_colon-write pretty (write na pretty indent v ++ t))
        (rw (skip-write na v pretty indent t x) (rw h)))

  pub members_last :
      (pretty : Bool) (indent f depth : ℕ) (ts k : Text) (v : Value na) (t end : Text)
      → skip false ts ≡ member_text pretty indent k v t
      → IsExact na v
      → parse_value na f (depth + 1) (write na pretty indent v ++ t) ≡ ok v t
      → skip false t ≡ b'}' ∷ end
      → parse_members na (suc f) depth ts ≡ ok (member k v no_members) end
  members_last pretty indent f depth ts k v t end s x h e =
      members_step pretty indent f depth ts k v t s x h ∙ rw e

  pub members_next :
      (pretty : Bool) (indent f depth : ℕ) (ts k : Text) (v : Value na) (t cs : Text)
      → (ms : Members na) (end : Text) → skip false ts ≡ member_text pretty indent k v t
      → IsExact na v
      → parse_value na f (depth + 1) (write na pretty indent v ++ t) ≡ ok v t
      → skip false t ≡ b',' ∷ cs
      → starts_with b'}' (skip false cs) ≡ false
      → parse_members na f depth (skip false cs) ≡ ok ms end
      → parse_members na (suc f) depth ts ≡ ok (member k v ms) end
  members_next pretty indent f depth ts k v t cs ms end s x h e n m =
      members_step pretty indent f depth ts k v t s x h ∙ rw e (rw n (rw m))

  pub members_more :
      (pretty : Bool) (indent : ℕ) (k : Text) (w : Value na) (ys : Members na) (t : Text)
      → (cs : Text) × (skip false (write_members na pretty indent (member k w ys) ++ t) ≡ b',' ∷ cs)
        × (skip false cs
            ≡ member_text pretty (indent + 1) k w (write_members na pretty indent ys ++ t))
  unfolding write_members
  members_more pretty indent k w ys t =
      let line = new_line pretty (indent + 1) in
      let value = write na pretty (indent + 1) w in
      let rest = write_members na pretty indent ys in
      (
        line ++ member_text pretty (indent + 1) k w (rest ++ t),
        skip_solid b',' _ refl refl
            ∙ ap (λ u. b',' ∷ u)
                (append_assoc5 line (write_string k) (colon na pretty) value rest t),
        skip-new_line pretty (indent + 1) _ ∙ skip_solid b'"' _ refl refl,
      )
