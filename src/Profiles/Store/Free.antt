-- ===== src/Profiles/Store/Free.antt =====
-- `uniqueName` of src/profiles/Profile.cpp finds a free name.
use infinity_clicker.Base.{
  ℕ, zero, suc, ◌⊎◌, inl, inr, Bool-cases, ◌+◌, ◌-◌, ◌<◌, ◌≤◌, ◌≡◌, refl, ap, sym, ◌∙◌, arith, Bool,
  true, false, if◌then◌else◌, ltb, List, [], ◌∷◌, length,
}
use infinity_clicker.Json.{Text, text_eq, NumArith}
use infinity_clicker.Profiles.Profile.{RateArith, Profile}
use infinity_clicker.Profiles.Store.{has_name, try_names, unique_name}

pub text_eq_refl : (s : Text) → text_eq s s ≡ true
text_eq_refl [] = refl
text_eq_refl (a ∷ s) = ground (arith, text_eq_refl s)

pub eq_of-text_eq : (s t : Text) → text_eq s t ≡ true → s ≡ t
eq_of-text_eq [] [] h = refl
eq_of-text_eq [] (b ∷ t) h = absurd (cc)
eq_of-text_eq (a ∷ s) [] h = absurd (cc)
eq_of-text_eq (a ∷ s) (b ∷ t) h = grind (arith, eq_of-text_eq s t)

pub text_eq_sym : (s t : Text) → text_eq s t ≡ false → text_eq t s ≡ false
text_eq_sym s t h = elim (Bool-cases (text_eq t s)) [
  | inl e ↦ absurd (cc (ap (text_eq s) (eq_of-text_eq t s e), text_eq_refl s))
  | inr e ↦ e
]

-- A test on the numbers below `n` holds somewhere or nowhere.
some_below :
    (p : ℕ → Bool) (n : ℕ) → ((k : ℕ) × (k < n) × (p k ≡ true)) ⊎ ((j : ℕ) → j < n → p j ≡ false)
some_below p zero = inr (λ j l. absurd (omega arith))
some_below p (suc n) = elim (Bool-cases (p n)) [
  | inl e ↦ inl (n, omega arith, e)
  | inr e ↦ elim (some_below p n) [
    | inl (k, l, h) ↦ inl (k, omega arith, h)
    | inr none_of ↦ inr (λ j l. grind (arith, none_of j))
  ]
]

-- `f` without its value at `k`.
abbrev without : (ℕ → Text) → ℕ → ℕ → Text
without f k j = if ltb j k then f j else f (suc j)

abbrev pub Injects : (ℕ → Text) → Type 0
Injects f = (i j : ℕ) → f i ≡ f j → i ≡ j

without-Injects : (f : ℕ → Text) (k : ℕ) → Injects f → Injects (without f k)
without-Injects f k inj i j h =
    ground (arith, inj i j, inj (suc i) j, inj i (suc j), inj (suc i) (suc j))

same_index :
    (f : ℕ → Text) (t : Text) (i k : ℕ)
    → Injects f
    → text_eq t (f k) ≡ true
    → text_eq t (f i) ≡ true
    → i ≡ k
same_index f t i k inj e h = inj i k (sym (eq_of-text_eq t (f i) h) ∙ eq_of-text_eq t (f k) e)

all_from :
    (p : ℕ → Bool) (n i : ℕ)
    → p i ≡ true
    → ((j : ℕ) → j < n → p (i + 1 + j) ≡ true)
    → (j : ℕ) → j < suc n
    → p (i + j) ≡ true
all_from p n i h t zero l = ap p (omega arith) ∙ h
all_from p n i h t (suc j) l = ap p (omega arith) ∙ t j (omega arith)

module _ (na : NumArith) (ra : RateArith na) where
  has_name-without :
      (p : Profile na ra) (ps : List (Profile na ra)) (f : ℕ → Text) (n k j : ℕ)
      → Injects f
      → text_eq p.name (f k) ≡ true
      → ((i : ℕ) → i < n → has_name na ra (p ∷ ps) (f i) ≡ true)
      → k < n
      → j < n - 1
      → has_name na ra ps (without f k j) ≡ true
  has_name-without p ps f n k j inj e h l m = elim (Bool-cases (ltb j k)) [
    | inl b ↦
        (let there = h j (omega arith) in
          rw b (elim (Bool-cases (text_eq p.name (f j))) [
            | inl same ↦ absurd (ground (arith, same_index f p.name j k inj e same))
            | inr other ↦ ground (arith)
          ]))
    | inr b ↦
        (let there = h (suc j) (omega arith) in
          rw b (elim (Bool-cases (text_eq p.name (f (suc j)))) [
            | inl same ↦ absurd (ground (arith, same_index f p.name (suc j) k inj e same))
            | inr other ↦ ground (arith)
          ]))
  ]

  -- Different names that all are in the list are no more than the profiles of the list.
  length-has_name :
      (ps : List (Profile na ra)) (f : ℕ → Text) (n : ℕ)
      → Injects f
      → ((j : ℕ) → j < n → has_name na ra ps (f j) ≡ true)
      → n ≤ length ps
  length-has_name [] f zero inj h = omega arith
  length-has_name [] f (suc n) inj h = absurd (cc (h 0 (omega arith)))
  length-has_name (p ∷ ps) f n inj h = elim (some_below (λ j. text_eq p.name (f j)) n) [
    | inl (k, l, e) ↦
        (let fewer =
            length-has_name ps (without f k) (n - 1) (without-Injects f k inj)
              (λ j m. has_name-without p ps f n k j inj e h l m) in
          omega (arith, fewer))
    | inr none_of ↦
        (let all = length-has_name ps f n inj (λ j m. ground (arith, h j m, none_of j m)) in
          omega (arith, all))
  ]

  Tried : (Text → ℕ → Text) → List (Profile na ra) → Text → ℕ → ℕ → Type 0
  Tried numbered ps base n i =
      ((k : ℕ) × (try_names na ra numbered ps base n i ≡ numbered base k)
        × (has_name na ra ps (numbered base k) ≡ false))
      ⊎ ((j : ℕ) → j < n → has_name na ra ps (numbered base (i + j)) ≡ true)

  try_names-Tried :
      (numbered : Text → ℕ → Text) (ps : List (Profile na ra)) (base : Text) (n i : ℕ)
      → Tried numbered ps base n i
  unfolding try_names Tried
  try_names-Tried numbered ps base zero i = inr (λ j l. absurd (omega arith))
  try_names-Tried numbered ps base (suc n) i =
      elim (Bool-cases (has_name na ra ps (numbered base i))) [
        | inl taken ↦ rw taken (elim (try_names-Tried numbered ps base n (i + 1)) [
          | inl found ↦ inl found
          | inr all ↦ inr (all_from (λ x. has_name na ra ps (numbered base x)) n i taken all)
        ])
        | inr free ↦ rw free (inl (i, refl, free))
      ]

  -- While there are fewer profiles than numbers to try, and other numbers make other names, the name
  -- that is chosen instead of one in use is a numbered one, and no profile has it.
  pub unique_name_free :
      (numbered : Text → ℕ → Text) (ps : List (Profile na ra)) (base : Text)
      → Injects (numbered base)
      → length ps < 9998
      → has_name na ra ps base ≡ true
      → (k : ℕ) × (unique_name na ra numbered ps base ≡ numbered base k)
        × (has_name na ra ps (numbered base k) ≡ false)
  unfolding unique_name Tried
  unique_name_free numbered ps base inj l u = rw u (elim (try_names-Tried numbered ps base 9998 2) [
    | inl found ↦ found
    | inr all ↦ absurd (
        omega (
          arith,
          length-has_name ps (λ j. numbered base (2 + j)) 9998
              (λ i j e. omega (arith, inj (2 + i) (2 + j) e)) all,
        ))
  ])
