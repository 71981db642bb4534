-- ===== src/Telemetry/Histogram/Buckets.antt =====
-- The bucket of a value and its representative (src/telemetry/Stats.cpp, `index`, `bucketMid`).
use infinity_clicker.Base.{
  ℕ, zero, suc, ◌+◌, ◌-◌, ◌*◌, ◌/◌, ◌%◌, ◌^◌, ◌≤◌, ◌<◌, Bool, true, ◌≡◌, refl, ◌&&◌, arith, ap, ◌∙◌,
  ◌⊎◌, inl, inr, ◌==◌, ==_iff,
}
use native.Mathlib.Nat.{
  pow-suc, pow-le-pow_right, div-lt_iff_lt-mul, le-div_iff_mul-le, mul-le-mul_right, one-le-pow,
}
use native.Mathlib.Decide.{dec_le}
use infinity_clicker.Telemetry.Histogram.{msb_from, msb, index, bucket_mid, k_buckets}

-- Below the power above the first candidate, the result is the position of the highest bit.
msb_from_bounds :
    (k v : ℕ) → 0 < v → v < 2 ^ suc k → (2 ^ msb_from k v ≤ v) × (v < 2 ^ suc (msb_from k v))
unfolding msb_from
msb_from_bounds zero v p h = (p, h)
msb_from_bounds (suc k) v p h = ground (arith, msb_from_bounds k v p)

pub msb_bounds : (v : ℕ) → 0 < v → v < 2 ^ 64 → (2 ^ msb v ≤ v) × (v < 2 ^ suc (msb v))
unfolding msb
msb_bounds v p h = msb_from_bounds 63 v p h

-- Check every value by evaluation.
holds_up_to : (ℕ → Bool) → ℕ → Bool
holds_up_to test zero = true
holds_up_to test (suc last) = holds_up_to test last && test last

holds_at :
    (test : ℕ → Bool) (bound i : ℕ) → i < bound → holds_up_to test bound ≡ true → test i ≡ true
unfolding holds_up_to
holds_at test zero i l t = absurd (omega arith)
holds_at test (suc last) i l t = ground (arith, holds_at test last i)

round_trip_table : holds_up_to (λ i. index (bucket_mid i) == i) k_buckets ≡ true
unfolding holds_up_to index msb bucket_mid
round_trip_table = refl

-- The representative of each of the 312 buckets lies in that bucket.
pub index-bucket_mid : (i : ℕ) → i < k_buckets → index (bucket_mid i) ≡ i
index-bucket_mid i h = (==_iff _ i).0 (holds_at _ k_buckets i h round_trip_table)

eight_pow : (s : ℕ) → 2 ^ suc (suc (suc s)) ≡ 8 * 2 ^ s
eight_pow s = omega (arith, pow-suc 2 (suc (suc s)), pow-suc 2 (suc s), pow-suc 2 s)

-- A value of at least 8 that the histogram resolves: its power of two, and its leading four bits.
record Cell (v : ℕ) : Type 0 where
  exponent : ℕ
  leading : ℕ
  exponent_small : exponent ≤ 37
  leading_low : 8 ≤ leading
  leading_high : leading < 16
  lower : leading * 2 ^ exponent ≤ v
  upper : v < leading * 2 ^ exponent + 2 ^ exponent
  index_cell : index v ≡ 8 * exponent + leading

Cell-of_bounds :
    (v s : ℕ) → 8 ≤ v → msb v ≡ suc (suc (suc s)) → 8 * 2 ^ s ≤ v → v < 16 * 2 ^ s → s ≤ 37 → Cell v
unfolding index
Cell-of_bounds v s h m lo hi small =
    let pos : 0 < 2 ^ s = one-le-pow s 2 (omega arith) in
    let low : 8 ≤ v / 2 ^ s = (le-div_iff_mul-le pos).1 lo in
    let high : v / 2 ^ s < 16 = (div-lt_iff_lt-mul pos).1 hi in
    record {
      exponent = s;
      leading = v / 2 ^ s;
      exponent_small = small;
      leading_low = low;
      leading_high = high;
      lower = omega arith;
      upper = omega arith;
      index_cell = ground arith;
    }

resolve : (v : ℕ) → 8 ≤ v → v < 2 ^ 41 → Cell v
resolve v h hi =
    let b = msb_bounds v (omega arith) (omega arith) in
    let deep : 3 ≤ msb v = elim (dec_le 3 (msb v)) [
      | yes p ↦ p
      | no p ↦ absurd (
          omega
            (arith, pow-le-pow_right {n = 2} (omega arith) {i = suc (msb v)} {j = 3} (omega arith)))
    ] in
    let shallow : msb v ≤ 40 = elim (dec_le (msb v) 40) [
      | yes p ↦ p
      | no p ↦
          absurd (
            omega
              (arith, pow-le-pow_right {n = 2} (omega arith) {i = 41} {j = msb v} (omega arith)))
    ] in
    let e : msb v ≡ suc (suc (suc (msb v - 3))) = omega arith in
    let lo : 8 * 2 ^ (msb v - 3) ≤ v =
      omega (arith, eight_pow (msb v - 3), b.0, ap (λ m. 2 ^ m) e) in
    let up : v < 16 * 2 ^ (msb v - 3) = omega (
      arith,
      eight_pow (msb v - 3),
      b.1,
      ap (λ m. 2 ^ suc m) e,
      pow-suc 2 (suc (suc (suc (msb v - 3)))),
    ) in
    Cell-of_bounds v (msb v - 3) h e lo up (omega arith)

mid_cell : (s q : ℕ) → 8 ≤ q → q < 16 → bucket_mid (8 * s + q) ≡ q * 2 ^ s + 2 ^ s / 2
unfolding bucket_mid
mid_cell s q lo hi =
    let e : (8 * s + q) / 8 + 3 - 1 - 3 ≡ s = omega arith in
    let f : 8 + (8 * s + q) % 8 ≡ q = omega arith in ground (arith, e, f)

half_pow : (s : ℕ) → (2 ^ s ≡ 1) ⊎ (2 * (2 ^ s / 2) ≡ 2 ^ s)
half_pow zero = inl refl
half_pow (suc s) = inr (omega (arith, pow-suc 2 s))

Cell-error :
    (v : ℕ) → Cell v → (15 * v ≤ 16 * bucket_mid (index v)) × (16 * bucket_mid (index v) ≤ 17 * v)
Cell-error v c =
    let P : ℕ = 2 ^ c.exponent in
    let big : 8 * P ≤ c.leading * P = grind arith in
    let m : bucket_mid (index v) ≡ c.leading * P + P / 2 =
      ap bucket_mid c.index_cell ∙ mid_cell c.exponent c.leading c.leading_low c.leading_high in
    elim (half_pow c.exponent) [
      | inl one ↦ (omega (arith, m), omega (arith, m))
      | inr even ↦ (omega (arith, m), omega (arith, m))
    ]

index_small : (v : ℕ) → v < 8 → index v ≡ v
unfolding index
index_small v h = ground arith

index_large : (v : ℕ) → 2 ^ 41 ≤ v → v < 2 ^ 64 → index v ≡ 311
unfolding index
index_large v h hi =
    let b = msb_bounds v (omega arith) hi in
    let deep : 40 < msb v = elim (dec_le 41 (msb v)) [
      | yes p ↦ p
      | no p ↦ absurd (
          omega (
            arith,
            pow-le-pow_right {n = 2} (omega arith) {i = suc (msb v)} {j = 41} (omega arith),
          ))
    ] in
    ground arith

low_mid : (u : ℕ) → u < 8 → (15 * u ≤ 16 * bucket_mid u) × (16 * bucket_mid u ≤ 17 * u)
unfolding bucket_mid
low_mid u l = ground arith

-- A value is represented within a sixteenth of itself, from 0 to 2^41 - 1 ns.
pub bucket_mid-index_error :
    (v : ℕ)
    → v < 2 ^ 41
    → (15 * v ≤ 16 * bucket_mid (index v)) × (16 * bucket_mid (index v) ≤ 17 * v)
bucket_mid-index_error v h = elim (dec_le 8 v) [
  | yes p ↦ Cell-error v (resolve v p h)
  | no p ↦ rw (index_small v (omega arith)) (low_mid v (omega arith))
]

leading_le : (q q' P v w : ℕ) → q * P ≤ v → w < q' * P + P → v ≤ w → q ≤ q'
leading_le q q' P v w lo up h = elim (dec_le q q') [
  | yes p ↦ p
  | no p ↦ let k : (q' + 1) * P ≤ q * P = mul-le-mul_right P (omega arith) in absurd (omega arith)
]

Cell-mono : (v w : ℕ) → Cell v → Cell w → v ≤ w → index v ≤ index w
Cell-mono v w c d h = elim (dec_le c.exponent d.exponent) [
  | yes p ↦ elim (dec_le d.exponent c.exponent) [
    | yes q ↦
        let e : c.exponent ≡ d.exponent = omega arith in
        let up : w < d.leading * 2 ^ c.exponent + 2 ^ c.exponent = rw e d.upper in
        omega (
          arith,
          c.index_cell,
          d.index_cell,
          leading_le c.leading d.leading (2 ^ c.exponent) v w c.lower up h,
        )
    | no q ↦ omega (arith, c.index_cell, d.index_cell)
  ]
  | no p ↦ absurd (
      omega (
        arith,
        pow-le-pow_right {n = 2} (omega arith) {i = suc d.exponent} {j = c.exponent} (omega arith),
        pow-suc 2 d.exponent,
        8-le c,
        le-16 d,
      ))
]
  where
    8-le : {u : ℕ} (c : Cell u) → 8 * 2 ^ c.exponent ≤ u
    8-le c = grind arith

    le-16 : {u : ℕ} (c : Cell u) → u < 16 * 2 ^ c.exponent
    le-16 c = grind arith

index_resolved : (v : ℕ) → v < 2 ^ 41 → index v < k_buckets
index_resolved v h = elim (dec_le 8 v) [
  | yes q ↦ let c = resolve v q h in omega (arith, c.index_cell)
  | no q ↦ omega (arith, index_small v (omega arith))
]

-- Larger values are never put in an earlier bucket.
pub index_mono : (v w : ℕ) → v ≤ w → w < 2 ^ 64 → index v ≤ index w
index_mono v w h hi = elim (dec_le (2 ^ 41) w) [
  | yes p ↦ elim (dec_le (2 ^ 41) v) [
    | yes q ↦ omega (arith, index_large w p hi, index_large v q (omega arith))
    | no q ↦ omega (arith, index_large w p hi, index_resolved v (omega arith))
  ]
  | no p ↦ elim (dec_le 8 w) [
    | yes q ↦ elim (dec_le 8 v) [
      | yes r ↦ Cell-mono v w (resolve v r (omega arith)) (resolve w q (omega arith)) h
      | no r ↦
          let c = resolve w q (omega arith) in
          omega (arith, index_small v (omega arith), c.index_cell, c.leading_low)
    ]
    | no q ↦ omega (arith, index_small w (omega arith), index_small v (omega arith))
  ]
]

-- Every 64-bit value has its bucket inside the array.
pub index_bounds : (v : ℕ) → v < 2 ^ 64 → index v < k_buckets
index_bounds v h = elim (dec_le (2 ^ 41) v) [
  | yes p ↦ omega (arith, index_large v p h)
  | no p ↦ index_resolved v (omega arith)
]
