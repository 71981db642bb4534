-- ===== src/Examples/Waiting.antt =====
-- Waits for a deadline at a tick to a microsecond, with insertion for the sort of the library.
use infinity_clicker.Base.{
  ℕ, ◌+◌, ◌/◌, ◌*◌, ◌≡◌, refl, arith, Bool, true, false, Bool-cases, inl, inr, leb, if◌then◌else◌,
  List, [], ◌∷◌, All, length, ◌⊎◌, ℤ, pos, pos_part, neg_part, ◌≤ℤ◌, some,
}
use infinity_clicker.Profiles.Keys.{standard, ultra}
use infinity_clicker.Waiter.{Waiter, new_waiter, margin_ticks, recompute_model}
use infinity_clicker.Waiter.Sorted.{IsIn, IsAscending, IsSort}
use infinity_clicker.Waiter.Model.{IsRank, IsModel, margin_ticks-covers}
use infinity_clicker.Waiter.Loop.{Round, Ended, wait_until}
use infinity_clicker.Waiter.Waits.{asked_in, Accounts}
use infinity_clicker.Waiter.Returns.{wait_until-returns}

abbrev not_above : ℤ → ℤ → Bool
not_above a b = leb (pos_part a + neg_part b) (pos_part b + neg_part a)

-- Insertion into an ascending list.
abbrev insert : ℤ → List ℤ → List ℤ
insert a [] = a ∷ []
insert a (z ∷ zs) = let rest = insert a zs in if not_above a z then a ∷ z ∷ zs else z ∷ rest

abbrev sort : List ℤ → List ℤ
sort [] = []
sort (z ∷ zs) = insert z (sort zs)

length-insert : (a : ℤ) (zs : List ℤ) → length (insert a zs) ≡ length zs + 1
length-insert a [] = omega arith
length-insert a (z ∷ zs) = elim (Bool-cases (not_above a z)) [
  | inl e ↦ rw e (omega arith)
  | inr e ↦ rw e (omega (arith, length-insert a zs))
]

length-sort : (zs : List ℤ) → length (sort zs) ≡ length zs
length-sort [] = refl
length-sort (z ∷ zs) = omega (arith, length-insert z (sort zs), length-sort zs)

insert-IsIn : (y a : ℤ) (zs : List ℤ) → (y ≡ a) ⊎ IsIn y zs → IsIn y (insert a zs)
insert-IsIn y a [] h = h
insert-IsIn y a (z ∷ zs) h = elim (Bool-cases (not_above a z)) [
  | inl e ↦ rw e h
  | inr e ↦ rw e (place (insert-IsIn y a zs) h)
]
  where
    place :
        ((y ≡ a) ⊎ IsIn y zs → IsIn y (insert a zs))
        → (y ≡ a) ⊎ ((y ≡ z) ⊎ IsIn y zs)
        → (y ≡ z) ⊎ IsIn y (insert a zs)
    place later (inl p) = inr (later (inl p))
    place later (inr (inl p)) = inl p
    place later (inr (inr m)) = inr (later (inr m))

sort-IsIn : (zs : List ℤ) (y : ℤ) → IsIn y zs → IsIn y (sort zs)
sort-IsIn [] y h = h
sort-IsIn (z ∷ zs) y (inl p) = insert-IsIn y z (sort zs) (inl p)
sort-IsIn (z ∷ zs) y (inr m) = insert-IsIn y z (sort zs) (inr (sort-IsIn zs y m))

All-le_trans : (a z : ℤ) (zs : List ℤ) → a ≤ℤ z → All (λ y. z ≤ℤ y) zs → All (λ y. a ≤ℤ y) zs
All-le_trans a z [] h l = _
All-le_trans a z (y ∷ ys) h l = (omega (arith, h, l.0), All-le_trans a z ys h l.1)

All-insert :
    (a b : ℤ) (zs : List ℤ) → a ≤ℤ b → All (λ y. a ≤ℤ y) zs → All (λ y. a ≤ℤ y) (insert b zs)
All-insert a b [] h l = (h, _)
All-insert a b (z ∷ zs) h l = elim (Bool-cases (not_above b z)) [
  | inl e ↦ rw e (h, l)
  | inr e ↦ rw e (l.0, All-insert a b zs h l.1)
]

insert-IsAscending : (a : ℤ) (zs : List ℤ) → IsAscending zs → IsAscending (insert a zs)
insert-IsAscending a [] h = (_, _)
insert-IsAscending a (z ∷ zs) h = elim (Bool-cases (not_above a z)) [
  | inl e ↦ let low : a ≤ℤ z = ground (arith, e) in rw e ((low, All-le_trans a z zs low h.0), h)
  | inr e ↦
      let high : z ≤ℤ a = ground (arith, e) in
      rw e (All-insert z a zs high h.0, insert-IsAscending a zs h.1)
]

sort-IsAscending : (zs : List ℤ) → IsAscending (sort zs)
sort-IsAscending [] = _
sort-IsAscending (z ∷ zs) = insert-IsAscending z (sort zs) (sort-IsAscending zs)

sort-IsSort : IsSort sort
sort-IsSort = record { ascending = sort-IsAscending; same_length = length-sort; kept = sort-IsIn }

-- `int(q * n + 0.5)` for a quantile of `q` hundredths
abbrev rank : ℕ → ℕ → ℕ
rank q n = (q * n + 50) / 100

rank-IsRank : IsRank rank
rank-IsRank n = (omega arith, omega arith)

abbrev ticks : ℕ → ℕ
ticks n = n

-- Ten sleeps have been late by 5, 12, 19, …, 68 ticks.
abbrev sampled : Waiter
sampled = record (new_waiter ticks true) { samples = λ i. pos (7 * i + 5); count = 10; head = 10 }

margin_ticks-covers_example :
    pos 68 ≤ℤ pos (margin_ticks ticks (recompute_model sort rank sampled) ultra)
unfolding new_waiter
margin_ticks-covers_example =
    margin_ticks-covers sort rank sort-IsSort ticks sampled 9 refl (omega arith) (omega arith)
      (omega arith) (omega arith)

-- A round at `now` that sleeps until `woke` or spins until 3000.
abbrev round : ℕ → ℕ → Round
round now woke = record {
  now = now;
  flag = false;
  timer_set = true;
  event_first = false;
  woke = woke;
  turns = (false, 2950) ∷ (false, 3000) ∷ [];
}

abbrev rounds : List Round
rounds = round 2997 2998 ∷ round 2998 2999 ∷ round 2999 3000 ∷ round 3001 3002 ∷ []

wait_until-returns_example :
    (e : Ended) × (wait_until ticks sort rank 3000 standard 0 (new_waiter ticks true) rounds
      ≡ some e)
    × Accounts 3000 (asked_in rounds) e.result e.at
    × IsModel e.waiter
unfolding new_waiter
wait_until-returns_example =
    wait_until-returns ticks sort rank 3000 sort-IsSort rank-IsRank standard 0 rounds
      (new_waiter ticks true) 2997
      (record {
        head_in = omega arith;
        count_in = omega arith;
        p75_above = omega arith;
        p99_above = omega arith;
        max_above = omega arith;
      })
      (
        omega arith,
        omega arith,
        inr (inl (omega arith)),
        (
          omega arith,
          omega arith,
          inr (inl (omega arith)),
          (
            omega arith,
            omega arith,
            inr (inl (omega arith)),
            (omega arith, omega arith, inr (inl (omega arith)), _),
          ),
        ),
      )
      (omega arith) (omega arith)
