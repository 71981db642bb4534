-- ===== src/Telemetry/RunStats/Slots.antt =====
-- The ring of slots of src/telemetry/Stats.cpp holds the actions of each completed interval.
use infinity_clicker.Base.{
  ℕ, zero, suc, ◌+◌, ◌*◌, ◌%◌, ◌^◌, ◌<◌, ◌≤◌, ◌==◌, ltb, leb, leb→le, if◌then◌else◌, ◌&&◌, ℤ, ◌≡◌,
  ◌≢◌, subst, arith, List, [], ◌∷◌, Bool-cases, inl, inr, false,
}
use infinity_clicker.Clock.{FloatArith}
use infinity_clicker.Telemetry.RunStats.{RunStats, push_slot, roll, note_interval}

-- What the scheduler reports of a run.
pub data Report : Type 0 where
  shot : ℕ → ℤ → Report
  volley : ℕ → ℕ → Report
  sent : ℤ → Report
  skipped : ℕ → Report

-- The time of the last action of the reports, which stand with the latest first.
abbrev pub last_time : ℕ → List Report → ℕ
last_time t0 [] = t0
last_time t0 (shot fire deadline ∷ past) = fire
last_time t0 (volley now n ∷ past) = now
last_time t0 (sent ticks ∷ past) = last_time t0 past
last_time t0 (skipped n ∷ past) = last_time t0 past

-- `n` actions at `t` as far as they lie in the interval.
abbrev pub inside : ℕ → ℕ → ℕ → ℕ → ℕ
inside lo hi t n = if leb lo t && ltb t hi then n else 0

-- The actions at times from `lo` on and before `hi`.
unfoldable pub count_between : ℕ → ℕ → List Report → ℕ
count_between lo hi [] = 0
count_between lo hi (shot fire deadline ∷ past) = inside lo hi fire 1 + count_between lo hi past
count_between lo hi (volley now n ∷ past) = inside lo hi now n + count_between lo hi past
count_between lo hi (sent ticks ∷ past) = count_between lo hi past
count_between lo hi (skipped n ∷ past) = count_between lo hi past

abbrev pub total : List Report → ℕ
total [] = 0
total (shot fire deadline ∷ past) = 1 + total past
total (volley now n ∷ past) = n + total past
total (sent ticks ∷ past) = total past
total (skipped n ∷ past) = total past

pub count_between-le-total :
    (lo hi : ℕ) (past : List Report) → count_between lo hi past ≤ total past
unfolding count_between
count_between-le-total lo hi [] = omega arith
count_between-le-total lo hi (shot fire d ∷ past) =
    ground (arith, count_between-le-total lo hi past)
count_between-le-total lo hi (volley now n ∷ past) =
    ground (arith, count_between-le-total lo hi past)
count_between-le-total lo hi (sent t ∷ past) = count_between-le-total lo hi past
count_between-le-total lo hi (skipped n ∷ past) = count_between-le-total lo hi past

pub count_between_split :
    (lo mid hi : ℕ) (past : List Report)
    → lo ≤ mid
    → mid ≤ hi
    → count_between lo hi past ≡ count_between lo mid past + count_between mid hi past
unfolding count_between
count_between_split lo mid hi [] p q = omega arith
count_between_split lo mid hi (shot fire d ∷ past) p q =
    ground (arith, count_between_split lo mid hi past)
count_between_split lo mid hi (volley now n ∷ past) p q =
    ground (arith, count_between_split lo mid hi past)
count_between_split lo mid hi (sent t ∷ past) p q = count_between_split lo mid hi past p q
count_between_split lo mid hi (skipped n ∷ past) p q = count_between_split lo mid hi past p q

-- The fields of the ring.
pub record Ring : Type 0 where
  pub ticks : ℕ
  pub ends : ℕ
  pub head : ℕ
  pub filled : ℕ
  pub count : ℕ
  pub slots : ℕ → ℕ

-- What `count_actions` does to the ring.
abbrev pub count_ring : Ring → ℕ → Ring
count_ring r n = record r { count = (r.count + n) % 2 ^ 32 }

module _ (F : FloatArith) where
  abbrev pub ring_of : RunStats F → Ring
  ring_of s = record {
    ticks = s.slot_ticks;
    ends = s.slot_end;
    head = s.slot_head;
    filled = s.slot_filled;
    count = s.slot_count;
    slots = s.slots;
  }

  pub ring_of-note_interval :
      (s : RunStats F) (iv : F.Double) → ring_of (note_interval F s iv) ≡ ring_of s
  unfolding note_interval
  ring_of-note_interval s iv = elim (Bool-cases (s.last_fire == 0)) [ inl e ↦ rw e | inr e ↦ rw e ]

ne_of_test : (j k : ℕ) → (j == k) ≡ false → j ≢ k
ne_of_test j k e same = ground arith

-- A run of slots of `width` ticks from `t0` on.
module _ (t0 width : ℕ) where
  -- The start of a slot.
  abbrev pub edge : ℕ → ℕ
  edge zero = t0
  edge (suc k) = edge k + width

  pub edge_add : (k n : ℕ) → edge (k + n) ≡ edge k + n * width
  edge_add k zero = let e : k + 0 ≡ k = omega arith in rw e (omega arith)
  edge_add k (suc n) =
      let e : k + suc n ≡ suc (k + n) = omega arith in rw e (omega (arith, edge_add k n))

  pub edge_mono : (j k : ℕ) → j ≤ k → edge j ≤ edge k
  edge_mono j zero h = let e : j ≡ 0 = omega arith in rw e (omega arith)
  edge_mono j (suc k) h = elim (Bool-cases (leb j k)) [
    | inl p ↦ omega (arith, edge_mono j k (leb→le j k p))
    | inr p ↦ let e : j ≡ suc k = ground arith in rw e (omega arith)
  ]

  abbrev pub slot_actions : List Report → ℕ → ℕ
  slot_actions past k = count_between (edge k) (edge (suc k)) past

  -- The ring when `k` slots are complete.
  pub record Holds (past : List Report) (k : ℕ) (r : Ring) : Type 0 where
    pub ticks_is : r.ticks ≡ width
    pub ends_is : r.ends ≡ edge k + width
    pub head_is : r.head ≡ k % 100
    pub filled_is : r.filled ≡ (if ltb k 100 then k else 100)
    pub count_is : r.count ≡ slot_actions past k
    pub slots_are : (j : ℕ) → j < k → k ≤ j + 100 → r.slots (j % 100) ≡ slot_actions past j
    pub none_later : (lo hi : ℕ) → edge k + width ≤ lo → count_between lo hi past ≡ 0

  -- A round of `roll` on the ring.
  abbrev pub push_ring : Ring → Ring
  push_ring r = record {
    ticks = r.ticks;
    ends = r.ends + r.ticks;
    head = (r.head + 1) % 100;
    filled = if ltb r.filled 100 then r.filled + 1 else r.filled;
    count = 0;
    slots = λ i. if i == r.head then r.count else r.slots i;
  }

  pushed_slots :
      (past : List Report) (k : ℕ) (r : Ring)
      → Holds past k r
      → (j : ℕ) → j < suc k
      → suc k ≤ j + 100
      → (push_ring r).slots (j % 100) ≡ slot_actions past j
  pushed_slots past k r h j a b = elim (Bool-cases (j == k)) [
    | inl e ↦ let same : j ≡ k = ground arith in rw (same, h.head_is) (ground (arith, h.count_is))
    | inr e ↦
        let near : j % 100 ≢ r.head = omega (arith, h.head_is, ne_of_test j k e) in
        ground (arith, h.slots_are j)
  ]

  push_ring-Holds :
      (past : List Report) (k : ℕ) (r : Ring) → Holds past k r → Holds past (suc k) (push_ring r)
  push_ring-Holds past k r h = record {
    ticks_is = h.ticks_is;
    ends_is = omega (arith, h.ends_is, h.ticks_is);
    head_is = omega (arith, h.head_is);
    filled_is = ground (arith, h.filled_is);
    count_is = omega (arith, h.none_later (edge (suc k)) (edge (suc (suc k))));
    slots_are = pushed_slots past k r h;
    none_later = λ lo hi p. h.none_later lo hi (omega arith);
  }

  pub count_ring-Holds :
      (past : List Report) (k : ℕ) (r : Ring) (d : Report) (t n : ℕ)
      → ((lo hi : ℕ) → count_between lo hi (d ∷ past) ≡ inside lo hi t n + count_between lo hi past)
      → Holds past k r
      → edge k ≤ t
      → t < edge k + width
      → n + total past < 2 ^ 32
      → Holds (d ∷ past) k (count_ring r n)
  count_ring-Holds past k r d t n reads h from to few = record {
    ticks_is = h.ticks_is;
    ends_is = h.ends_is;
    head_is = h.head_is;
    filled_is = h.filled_is;
    count_is = ground (
      arith,
      reads (edge k) (edge (suc k)),
      h.count_is,
      count_between-le-total (edge k) (edge (suc k)) past,
    );
    slots_are = λ j a b.
        ground
          (arith, reads (edge j) (edge (suc j)), h.slots_are j, edge_mono (suc j) k (omega arith));
    none_later = λ lo hi p. ground (arith, reads lo hi, h.none_later lo hi);
  }

  module _ (F : FloatArith) where
    -- One more slot, as a round of `roll` adds it.
    abbrev pub pushed : RunStats F → RunStats F
    pushed s = record (push_slot F s) { slot_end = s.slot_end + s.slot_ticks }

    ring_of-pushed : (s : RunStats F) → ring_of F (pushed s) ≡ push_ring (ring_of F s)
    unfolding push_slot
    ring_of-pushed s = elim (Bool-cases (((s.slots_done + 1) % 2 ^ 64) % 10 == 0)) [
      | inl e ↦ rw e
      | inr e ↦ rw e
    ]

    -- The slots are complete up to the one that holds `now`, which lies at most `left` slots on.
    abbrev pub Reaches : List Report → ℕ → ℕ → RunStats F → Type 0
    Reaches past k now s =
        (k' : ℕ) × Holds past k' (ring_of F s)
        × (now < edge k' + width)
        × (edge k ≤ now → edge k' ≤ now)

    pub roll-Reaches :
        (left m : ℕ) (past : List Report) (k : ℕ) (s : RunStats F) (now : ℕ)
        → Holds past k (ring_of F s)
        → m ≡ k + left
        → now < edge m + width
        → Reaches past k now (roll F left s now)
    unfolding roll
    roll-Reaches zero m past k s now h e lt =
        let same : m ≡ k = omega (arith, e) in
        let near : now < edge k + width = subst (λ i. now < edge i + width) same lt in
        let stop : leb s.slot_end now ≡ false = ground (arith, h.ends_is) in
        rw stop (k, h, near, λ p. p)
    roll-Reaches (suc left) m past k s now h e lt = elim (Bool-cases (leb s.slot_end now)) [
      | inl go ↦
          let reached : edge k + width ≤ now = omega (leb→le s.slot_end now go, h.ends_is, arith) in
          let next =
            roll-Reaches left m past (suc k) (pushed s) now
              (rw (ring_of-pushed s) (push_ring-Holds past k (ring_of F s) h)) (omega (arith, e))
              lt in
          rw go (next.0, next.1, next.2, λ p. next.3 reached)
      | inr stop ↦ rw stop (k, h, ground (arith, h.ends_is), λ p. p)
    ]
