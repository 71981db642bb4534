-- ===== src/Telemetry/Histogram.antt =====
-- The log-linear histogram of src/telemetry/Stats.h and Stats.cpp. `counts[i]` is a function of the
-- bucket; `counts` are uint32_t and `total` is uint64_t, so they wrap.
use infinity_clicker.Base.{
  ℕ, zero, suc, ◌+◌, ◌-◌, ◌*◌, ◌/◌, ◌%◌, ◌^◌, ◌&&◌, not, if◌then◌else◌, ltb, leb, ◌==◌, List, [],
  ◌∷◌,
}
pub mod Buckets
pub mod Rank

abbrev pub k_sub_bits : ℕ
k_sub_bits = 3

abbrev pub k_sub : ℕ
k_sub = 8

abbrev pub k_max_msb : ℕ
k_max_msb = 40

abbrev pub k_buckets : ℕ
k_buckets = 312

-- The highest set bit at or below `k`, as `_BitScanReverse64` finds it from 63 down; 0 for 0.
unfoldable pub msb_from : ℕ → ℕ → ℕ
msb_from zero v = 0
msb_from (suc k) v = let lower = msb_from k v in if leb (2 ^ suc k) v then suc k else lower

unfoldable pub msb : ℕ → ℕ
unfolding msb_from
msb v = msb_from 63 v

unfoldable pub index : ℕ → ℕ
index v =
    let m = msb v in
    if ltb v k_sub
    then v
    else if ltb k_max_msb m
    then k_buckets - 1
    else (m - k_sub_bits + 1) * k_sub + (v / 2 ^ (m - k_sub_bits)) % k_sub

unfoldable pub bucket_mid : ℕ → ℕ
bucket_mid idx =
    let shift = idx / k_sub + k_sub_bits - 1 - k_sub_bits in
    if ltb idx k_sub then idx else (k_sub + idx % k_sub) * 2 ^ shift + 2 ^ shift / 2

pub record LogHistogram : Type 0 where
  pub counts : ℕ → ℕ
  pub total : ℕ

unfoldable pub empty : LogHistogram
empty = record { counts = λ i. 0; total = 0 }

unfoldable pub add : LogHistogram → ℕ → LogHistogram
add h ns = record {
  counts = λ i. if i == index ns then (h.counts i + 1) % 2 ^ 32 else h.counts i;
  total = (h.total + 1) % 2 ^ 64;
}

-- The samples of a run, in the order in which they are added.
unfoldable pub add_all : LogHistogram → List ℕ → LogHistogram
unfolding add
add_all h [] = h
add_all h (ns ∷ rest) = add_all (add h ns) rest

-- The loop of `percentile` over the `n` buckets from `i` on, with `acc` counted so far.
unfoldable pub scan : (ℕ → ℕ) → ℕ → ℕ → ℕ → ℕ → ℕ
unfolding bucket_mid
scan counts target zero i acc = bucket_mid (k_buckets - 1)
scan counts target (suc n) i acc =
    let rest = scan counts target n (i + 1) (acc + counts i) in
    if leb target (acc + counts i) && not (counts i == 0) then bucket_mid i else rest

-- `share` is the floating-point `ceil(q * total)` of the quantile q that is asked for.
unfoldable pub percentile : (ℕ → ℕ) → LogHistogram → ℕ
percentile share h = if h.total == 0 then 0 else scan h.counts (share h.total) k_buckets 0 0
