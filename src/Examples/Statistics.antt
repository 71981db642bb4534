-- ===== src/Examples/Statistics.antt =====
-- The counters of a run at whole numbers in place of floating point: slots of ten ticks from 1000 on.
use infinity_clicker.Base.{
  ℕ, ◌+◌, ◌-◌, ◌*◌, ◌/◌, ◌<◌, ◌≤◌, arith, ltb, List, [], ◌∷◌, pos, negsuc, pos_part,
}
use infinity_clicker.Clock.{FloatArith}
use infinity_clicker.Telemetry.RunStats.Slots.{Report, shot, volley, sent, skipped, edge}
use infinity_clicker.Telemetry.RunStats.Held.{stats_after}
use infinity_clicker.Telemetry.RunStats.Shown.{ShowsSlots, after-ShowsSlots}
use infinity_clicker.Telemetry.RunStats.Counted.{IsCounted, after-IsCounted}

-- Natural numbers for doubles; a literal loses its decimals.
abbrev whole_floats : FloatArith
whole_floats = record {
  Double = ℕ;
  literal = λ m e. m;
  of_int = pos_part;
  to_int = pos;
  add = λ a b. a + b;
  sub = λ a b. a - b;
  mul = λ a b. a * b;
  div = λ a b. a / b;
  lt = ltb;
  sqrt = λ a. a;
  fabs = λ a. a;
}

-- Two actions in the first slot, four in the third, then a late one.
abbrev reports : List Report
reports =
    shot 1042 (pos 1040)
    ∷ skipped 3
    ∷ volley 1025 4
    ∷ sent (pos 2)
    ∷ shot 1009 (pos 1009)
    ∷ shot 1001 (negsuc 0)
    ∷ []

after-ShowsSlots_example :
    (k : ℕ) × (edge 1000 10 k ≤ 1042)
    × (1042 < edge 1000 10 k + 10)
    × ShowsSlots whole_floats 1000 10 reports k
        (stats_after whole_floats 10 (λ d. d) 10 1000 5 reports)
after-ShowsSlots_example =
    after-ShowsSlots whole_floats 10 (λ d. d) 1000 10 5 reports (omega arith) (omega arith)
      (omega arith)

after-IsCounted_example :
    IsCounted whole_floats 1000 reports (stats_after whole_floats 10 (λ d. d) 10 1000 5 reports)
after-IsCounted_example =
    after-IsCounted whole_floats 1000 (omega arith) 10 (λ d. d) 10 5 reports (omega arith)
