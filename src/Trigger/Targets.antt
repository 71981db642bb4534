-- ===== src/Trigger/Targets.antt =====
-- The list of target programs in src/trigger/TriggerEngine.cpp, as `applyPendingConfig` reads it
-- it. The conversion to and from wide text is left out: a name is a list of bytes.
use mathlib.Core.List.{reverse-cons}
use infinity_clicker.Base.{
  ℕ, ◌≡◌, refl, ap, ◌∙◌, arith, Bool, true, false, ◌&&◌, ◌||◌, not, if◌then◌else◌, ◌==◌, List, [],
  ◌∷◌, ◌++◌, reverse, contains, All,
}
use infinity_clicker.Json.{Text, codes}
use infinity_clicker.Str.{drop_blanks, trim, is_empty_text, is_capital, lower}

abbrev pub is_separator : ℕ → Bool
is_separator c = c == b';' || c == b','

abbrev pub cons_first : ℕ → List Text → List Text
cons_first c [] = (c ∷ []) ∷ []
cons_first c (t ∷ ts) = (c ∷ t) ∷ ts

-- The pieces between separators, an empty one after the last separator too.
unfoldable pub pieces : Text → List Text
pieces [] = [] ∷ []
pieces (c ∷ s) = let rest = pieces s in if is_separator c then [] ∷ rest else cons_first c rest

abbrev pub with_extension : Text → Text
with_extension t = if contains b'.' t then t else t ++ codes ".exe"

unfoldable pub target_of : Text → List Text
target_of piece =
    let item = lower (trim piece) in if is_empty_text item then [] else with_extension item ∷ []

unfoldable pub targets_of : List Text → List Text
targets_of [] = []
targets_of (t ∷ ts) = target_of t ++ targets_of ts

unfoldable pub parse_targets : Text → List Text
parse_targets list = targets_of (pieces list)

-- Every byte of the text passes the test.
abbrev pub all_bytes : (ℕ → Bool) → Text → Bool
all_bytes p [] = true
all_bytes p (c ∷ s) = p c && all_bytes p s

abbrev pub is_plain : ℕ → Bool
is_plain c = not (is_separator c || is_capital c)

-- A name that a window's program can have: it has an extension, no capital and no separator.
pub record IsTarget (t : Text) : Type 0 where
  pub has_dot : contains b'.' t ≡ true
  pub is_plain_text : all_bytes is_plain t ≡ true

abbrev no_separator : Text → Bool
no_separator s = all_bytes (λ c. not (is_separator c)) s

all_bytes-append :
    (p : ℕ → Bool) (s t : Text) → all_bytes p (s ++ t) ≡ (all_bytes p s && all_bytes p t)
all_bytes-append p [] t = refl
all_bytes-append p (c ∷ s) t = ground (arith, all_bytes-append p s t)

all_bytes-reverse : (p : ℕ → Bool) (s : Text) → all_bytes p (reverse s) ≡ all_bytes p s
all_bytes-reverse p [] = refl
all_bytes-reverse p (c ∷ s) = ground (
  arith,
  ap (all_bytes p) (reverse-cons c s),
  all_bytes-append p (reverse s) (c ∷ []),
  all_bytes-reverse p s,
)

all_bytes-drop_blanks :
    (p : ℕ → Bool) (s : Text) → all_bytes p s ≡ true → all_bytes p (drop_blanks s) ≡ true
all_bytes-drop_blanks p [] h = refl
all_bytes-drop_blanks p (c ∷ s) h = ground (arith, all_bytes-drop_blanks p s)

all_bytes-trim : (p : ℕ → Bool) (s : Text) → all_bytes p s ≡ true → all_bytes p (trim s) ≡ true
all_bytes-trim p s h =
    all_bytes-reverse p (drop_blanks (reverse (drop_blanks s)))
    ∙ all_bytes-drop_blanks p (reverse (drop_blanks s))
        (all_bytes-reverse p (drop_blanks s) ∙ all_bytes-drop_blanks p s h)

lower_plain : (s : Text) → no_separator s ≡ true → all_bytes is_plain (lower s) ≡ true
unfolding lower
lower_plain [] h = refl
lower_plain (c ∷ s) h = ground (arith, lower_plain s)

contains-append_dot : (s : Text) → contains b'.' (s ++ codes ".exe") ≡ true
contains-append_dot [] = refl
contains-append_dot (c ∷ s) = ground (arith, contains-append_dot s)

with_extension-IsTarget : (t : Text) → all_bytes is_plain t ≡ true → IsTarget (with_extension t)
with_extension-IsTarget t h =
    ground (arith, contains-append_dot t, all_bytes-append is_plain t (codes ".exe"))

All-append_targets :
    (ss ts : List Text) → All IsTarget ss → All IsTarget ts → All IsTarget (ss ++ ts)
All-append_targets [] ts a b = b
All-append_targets (s ∷ ss) ts a b = (a.0, All-append_targets ss ts a.1 b)

target_of-IsTarget : (s : Text) → no_separator s ≡ true → All IsTarget (target_of s)
unfolding target_of
target_of-IsTarget s h =
    let item = lower (trim s) in
    let plain = lower_plain (trim s) (all_bytes-trim (λ c. not (is_separator c)) s h) in
    only (is_empty_text item) (with_extension item) (with_extension-IsTarget item plain)
  where
    only : (b : Bool) (t : Text) → IsTarget t → All IsTarget (if b then [] else t ∷ [])
    only true t k = _
    only false t k = (k, _)

abbrev AreFree : List Text → Type 0
AreFree ts = All (λ t. no_separator t ≡ true) ts

cons_first-AreFree :
    (c : ℕ) (ts : List Text) → is_separator c ≡ false → AreFree ts → AreFree (cons_first c ts)
cons_first-AreFree c [] h k = (ground arith, _)
cons_first-AreFree c (t ∷ ts) h k = (ground (arith, k.0), k.1)

either_AreFree :
    (b : Bool) (c : ℕ) (ts : List Text)
    → is_separator c ≡ b
    → AreFree ts
    → AreFree (if b then [] ∷ ts else cons_first c ts)
either_AreFree true c ts e k = (refl, k)
either_AreFree false c ts e k = cons_first-AreFree c ts e k

pieces-AreFree : (s : Text) → AreFree (pieces s)
unfolding pieces
pieces-AreFree [] = (refl, _)
pieces-AreFree (c ∷ s) = either_AreFree (is_separator c) c (pieces s) refl (pieces-AreFree s)

targets_of-IsTarget : (ts : List Text) → AreFree ts → All IsTarget (targets_of ts)
unfolding targets_of
targets_of-IsTarget [] h = _
targets_of-IsTarget (t ∷ ts) h =
    All-append_targets (target_of t) (targets_of ts) (target_of-IsTarget t h.0)
      (targets_of-IsTarget ts h.1)

-- Whatever the user has written, every target is a name with an extension, without capitals and
-- without separators: one that the name of a window's program, in lower case, can be equal to.
pub parse_targets-IsTarget : (list : Text) → All IsTarget (parse_targets list)
unfolding parse_targets
parse_targets-IsTarget list = targets_of-IsTarget (pieces list) (pieces-AreFree list)
