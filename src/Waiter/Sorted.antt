-- ===== src/Waiter/Sorted.antt =====
-- What the code relies on of `std::sort`, and what that says of the entries by their index.
use infinity_clicker.Base.{
  ℕ, zero, suc, ◌-◌, ◌<◌, ◌≤◌, ◌≡◌, refl, arith, subst, sym, ap, List, [], ◌∷◌, ◌⊎◌, inl, inr, All,
  length, ℤ, ◌≤ℤ◌,
}
use infinity_clicker.Waiter.{entry, first_samples}

abbrev pub IsIn : ℤ → List ℤ → Type 0
IsIn z [] = ⊥
IsIn z (y ∷ ys) = (z ≡ y) ⊎ IsIn z ys

abbrev pub IsAscending : List ℤ → Type 0
IsAscending [] = Unit
IsAscending (z ∷ zs) = All (λ y. z ≤ℤ y) zs × IsAscending zs

-- A sort keeps the entries and their number, and puts them in ascending order.
pub record IsSort (sort : List ℤ → List ℤ) : Type 0 where
  pub ascending : (l : List ℤ) → IsAscending (sort l)
  pub same_length : (l : List ℤ) → length (sort l) ≡ length l
  pub kept : (l : List ℤ) (z : ℤ) → IsIn z l → IsIn z (sort l)

All-entry : (a : ℤ) (zs : List ℤ) (j : ℕ) → All (λ y. a ≤ℤ y) zs → j < length zs → a ≤ℤ entry zs j
All-entry a [] j h lt = absurd (omega arith)
All-entry a (z ∷ zs) zero h lt = h.0
All-entry a (z ∷ zs) (suc j) h lt = All-entry a zs j h.1 (omega arith)

pub entry_mono :
    (zs : List ℤ) (i j : ℕ) → IsAscending zs → i ≤ j → j < length zs → entry zs i ≤ℤ entry zs j
entry_mono [] i j h le lt = absurd (omega arith)
entry_mono (z ∷ zs) zero zero h le lt = omega arith
entry_mono (z ∷ zs) zero (suc j) h le lt = All-entry z zs j h.0 (omega arith)
entry_mono (z ∷ zs) (suc i) zero h le lt = absurd (omega arith)
entry_mono (z ∷ zs) (suc i) (suc j) h le lt = entry_mono zs i j h.1 (omega arith) (omega arith)

IsIn-index : (zs : List ℤ) (y : ℤ) → IsIn y zs → (i : ℕ) × (i < length zs) × (entry zs i ≡ y)
IsIn-index [] y m = absurd m
IsIn-index (z ∷ zs) y (inl e) = (0, omega arith, sym e)
IsIn-index (z ∷ zs) y (inr m) = let (i, lt, e) = IsIn-index zs y m in (suc i, omega (arith, lt), e)

-- Every entry of an ascending list is at most the last one.
pub IsIn-le_last :
    (zs : List ℤ) (y : ℤ) → IsAscending zs → IsIn y zs → y ≤ℤ entry zs (length zs - 1)
IsIn-le_last zs y h m =
    let (i, lt, e) = IsIn-index zs y m in
    subst (λ x. x ≤ℤ entry zs (length zs - 1)) e
      (entry_mono zs i (length zs - 1) h (omega (arith, lt)) (omega (arith, lt)))

pub length-first_samples : (f : ℕ → ℤ) (n : ℕ) → length (first_samples f n) ≡ n
length-first_samples f zero = refl
length-first_samples f (suc n) = ap suc (length-first_samples (λ i. f (suc i)) n)

pub first_samples-IsIn : (f : ℕ → ℤ) (n i : ℕ) → i < n → IsIn (f i) (first_samples f n)
first_samples-IsIn f zero i lt = absurd (omega arith)
first_samples-IsIn f (suc n) zero lt = inl refl
first_samples-IsIn f (suc n) (suc i) lt =
    inr (first_samples-IsIn (λ i. f (suc i)) n i (omega arith))
