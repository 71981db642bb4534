-- ===== src/Telemetry/Histogram/Rank.antt =====
-- `percentile` of src/telemetry/Stats.cpp against the samples that were added.
use infinity_clicker.Base.{
  ℕ, zero, suc, ◌+◌, ◌*◌, ◌^◌, ◌≤◌, ◌<◌, Bool, ◌≡◌, refl, ap, arith, List, [], ◌∷◌, if◌then◌else◌,
  ltb, leb, ◌==◌, length, All, ◌∙◌, subst, sym, ◌-◌, ◌∙◌,
}
use native.Mathlib.Nat.{add-zero, add-suc}
use native.Mathlib.Numerals.{add-one}
use native.Mathlib.Decide.{dec_lt}
use infinity_clicker.Telemetry.Histogram.{
  LogHistogram, index, bucket_mid, k_buckets, empty, add, add_all, scan, percentile,
}
use infinity_clicker.Telemetry.Histogram.Buckets.{index_mono, index_bounds, bucket_mid-index_error}

-- How many samples pass a test.
abbrev pub count_if : (ℕ → Bool) → List ℕ → ℕ
count_if test [] = 0
count_if test (s ∷ ss) = (if test s then 1 else 0) + count_if test ss

abbrev in_bucket : ℕ → List ℕ → ℕ
in_bucket i = count_if (λ s. i == index s)

add_all-counts :
    (h : LogHistogram) (ss : List ℕ) (i : ℕ)
    → h.counts i + length ss < 2 ^ 32
    → (add_all h ss).counts i ≡ h.counts i + in_bucket i ss
unfolding add_all
add_all-counts h [] i b = omega arith
add_all-counts h (s ∷ ss) i b = ground (arith, add_all-counts (add h s) ss i)

add_all-total :
    (h : LogHistogram) (ss : List ℕ)
    → h.total + length ss < 2 ^ 64
    → (add_all h ss).total ≡ h.total + length ss
unfolding add_all
add_all-total h [] b = omega arith
add_all-total h (s ∷ ss) b = ground (arith, add_all-total (add h s) ss)

-- The samples in the first `n` buckets.
cumulative : (ℕ → ℕ) → ℕ → ℕ
cumulative counts zero = 0
cumulative counts (suc n) = cumulative counts n + counts n

cumulative_step :
    (counts : ℕ → ℕ) (n : ℕ) → cumulative counts (suc n) ≡ cumulative counts n + counts n
unfolding cumulative
cumulative_step counts n = refl

cumulative_mono : (counts : ℕ → ℕ) (i d : ℕ) → cumulative counts i ≤ cumulative counts (i + d)
unfolding cumulative
cumulative_mono counts i zero = omega (arith, ap (cumulative counts) (add-zero i))
cumulative_mono counts i (suc d) =
    omega (arith, cumulative_mono counts i d, ap (cumulative counts) (add-suc i d))

scan_stop :
    (counts : ℕ → ℕ) (target b n : ℕ)
    → cumulative counts b < target
    → target ≤ cumulative counts b + counts b
    → scan counts target (suc n) b (cumulative counts b) ≡ bucket_mid b
unfolding scan
scan_stop counts target b n p q = ground arith

scan_skip :
    (counts : ℕ → ℕ) (target i n : ℕ)
    → cumulative counts (suc i) < target
    → scan counts target (suc n) i (cumulative counts i)
      ≡ scan counts target n (suc i) (cumulative counts (suc i))
unfolding scan cumulative
scan_skip counts target i n p = simp add-one (ground arith)

-- The loop stops at the bucket in which the running sum passes the target.
scan-finds :
    (counts : ℕ → ℕ) (target b n i : ℕ)
    → i ≤ b
    → b < i + n
    → cumulative counts b < target
    → target ≤ cumulative counts b + counts b
    → scan counts target n i (cumulative counts i) ≡ bucket_mid b
scan-finds counts target b zero i lo hi p q = absurd (omega arith)
scan-finds counts target b (suc n) i lo hi p q = elim (dec_lt i b) [
  | yes l ↦
      let e : suc i + (b - suc i) ≡ b = omega arith in
      let below : cumulative counts (suc i) < target =
        omega (arith, cumulative_mono counts (suc i) (b - suc i), ap (cumulative counts) e) in
      scan_skip counts target i n below
      ∙ scan-finds counts target b n (suc i) (omega arith) (omega arith) p q
  | no g ↦
      let e : b ≡ i = omega arith in
      subst (λ j. scan counts target (suc n) j (cumulative counts j) ≡ bucket_mid b) e
        (scan_stop counts target b n p q)
]

count_if_none : (ss : List ℕ) → count_if (λ s. ltb (index s) 0) ss ≡ 0
count_if_none [] = refl
count_if_none (s ∷ ss) = ground (arith, count_if_none ss)

count_if-suc :
    (n : ℕ) (ss : List ℕ)
    → count_if (λ s. ltb (index s) (suc n)) ss ≡ count_if (λ s. ltb (index s) n) ss + in_bucket n ss
count_if-suc n [] = omega arith
count_if-suc n (s ∷ ss) = ground (arith, count_if-suc n ss)

count_if-le_length : (test : ℕ → Bool) (ss : List ℕ) → count_if test ss ≤ length ss
count_if-le_length test [] = omega arith
count_if-le_length test (s ∷ ss) = ground (arith, count_if-le_length test ss)

-- No smaller bucket holds a larger sample.
bucket_below :
    (x : ℕ) (ss : List ℕ)
    → x < 2 ^ 64
    → All (λ s. s < 2 ^ 64) ss
    → (count_if (λ s. ltb (index s) (index x)) ss ≤ count_if (λ s. ltb s x) ss)
      × (count_if (λ s. leb s x) ss ≤ count_if (λ s. ltb (index s) (suc (index x))) ss)
bucket_below x [] b a = (omega arith, omega arith)
bucket_below x (s ∷ ss) b a =
    let ih = bucket_below x ss b a.1 in
    let up = index_mono x s in let down = index_mono s x in ground (arith, ih, up, down)

-- Samples in the first `n` buckets are those with an index below `n`.
cumulative-count :
    (counts : ℕ → ℕ) (ss : List ℕ) (n : ℕ)
    → ((i : ℕ) → i < n → counts i ≡ in_bucket i ss)
    → cumulative counts n ≡ count_if (λ s. ltb (index s) n) ss
unfolding cumulative
cumulative-count counts ss zero h = sym (count_if_none ss)
cumulative-count counts ss (suc n) h = omega (
  arith,
  cumulative-count counts ss n (λ i l. h i (omega arith)),
  h n (omega arith),
  count_if-suc n ss,
)

recorded : (ss : List ℕ) (i : ℕ) → length ss < 2 ^ 32 → (add_all empty ss).counts i ≡ in_bucket i ss
unfolding empty
recorded ss i n = omega (arith, add_all-counts empty ss i (omega arith))

recorded_total : (ss : List ℕ) → length ss < 2 ^ 32 → (add_all empty ss).total ≡ length ss
unfolding empty
recorded_total ss n = omega (arith, add_all-total empty ss (omega arith))

percentile_positive :
    (share : ℕ → ℕ) (h : LogHistogram)
    → 0 < h.total
    → percentile share h ≡ scan h.counts (share h.total) k_buckets 0 (cumulative h.counts 0)
unfolding percentile cumulative
percentile_positive share h p = ground arith

-- For up to 2^32 - 1 samples: if a sample value `x` below 2^41 ns has the rank asked for (fewer
-- than `share` samples are smaller, and at least `share` are no larger), then `percentile` is
-- within a sixteenth of it.
pub percentile-near_rank :
    (share : ℕ → ℕ) (ss : List ℕ) (x : ℕ)
    → length ss < 2 ^ 32
    → All (λ s. s < 2 ^ 64) ss
    → x < 2 ^ 41
    → count_if (λ s. ltb s x) ss < share (length ss)
    → share (length ss) ≤ count_if (λ s. leb s x) ss
    → (15 * x ≤ 16 * percentile share (add_all empty ss))
      × (16 * percentile share (add_all empty ss) ≤ 17 * x)
percentile-near_rank share ss x n a b lo hi =
    let h = add_all empty ss in
    let total : h.total ≡ length ss = recorded_total ss n in
    let asked : share h.total ≡ share (length ss) = ap share total in
    let order = bucket_below x ss (omega arith) a in
    let before = cumulative-count h.counts ss (index x) (λ i l. recorded ss i n) in
    let after = cumulative-count h.counts ss (suc (index x)) (λ i l. recorded ss i n) in
    let nonempty : 0 < h.total = omega (arith, count_if-le_length (λ s. leb s x) ss) in
    let found : percentile share h ≡ bucket_mid (index x) =
      percentile_positive share h nonempty
      ∙ scan-finds h.counts (share h.total) (index x) k_buckets 0 (omega arith)
          (index_bounds x (omega arith)) (omega arith)
          (omega (arith, cumulative_step h.counts (index x))) in
    rw found (bucket_mid-index_error x b)
