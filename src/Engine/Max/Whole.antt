-- ===== src/Engine/Max/Whole.antt =====
-- The calls of `runMax` in src/scheduler/Engine.cpp send whole actions.
use infinity_clicker.Base.{
  ℕ, zero, suc, ◌+◌, ◌*◌, ◌≤◌, ◌≡◌, ◌∙◌, refl, ap, arith, List, [], ◌∷◌, ◌++◌, take, length,
}
use infinity_clicker.Modes.Timeline.{PeriodArith}
use infinity_clicker.Input.Action.{Input}
use infinity_clicker.Engine.{send_inputs}
use infinity_clicker.Engine.Timed.{copies}
use infinity_clicker.Engine.Max.{MaxLoop, max_count, max_send}

take-prefix :
    (m n : ℕ) (xs ys : List Input) → m ≡ length xs + n → take m (xs ++ ys) ≡ xs ++ take n ys
take-prefix m n [] ys h = let e : m ≡ n = omega arith in ap (λ k. take k ys) e
take-prefix zero n (x ∷ xs) ys h = absurd (omega arith)
take-prefix (suc m) n (x ∷ xs) ys h = ap (λ r. x ∷ r) (take-prefix m n xs ys (omega arith))

module _ (pa : PeriodArith) where
  take-copies :
      (m n b : ℕ) (xs : List Input)
      → n ≤ b
      → m ≡ n * length xs
      → take m (copies pa b xs) ≡ copies pa n xs
  take-copies m zero b xs l h = let e : m ≡ 0 = omega arith in ap (λ k. take k (copies pa b xs)) e
  take-copies m (suc n) zero xs l h = absurd (omega arith)
  take-copies m (suc n) (suc b) xs l h =
      let e : m ≡ length xs + n * length xs = grind arith in
      take-prefix m (n * length xs) xs (copies pa b xs) e
      ∙ ap (λ r. xs ++ r) (take-copies (n * length xs) n b xs (omega arith) refl)

  -- The batch of a run at full speed is built from copies of the program.
  abbrev pub IsBuilt : MaxLoop pa → Type 0
  IsBuilt l =
      (l.batch ≡ copies pa l.batch_actions l.engine.cfg.max_prog.flat)
      × (l.per ≡ length l.engine.cfg.max_prog.flat)

  -- From a batch built from copies of the program, whose count of inputs is right, a call sends whole
  -- copies of the action, as many as it then counts as started: a prefix of the batch never cuts one.
  pub max_send-whole :
      (l : MaxLoop pa)
      → IsBuilt l
      → ((max_send pa l).engine.outputs
          ≡ l.engine.outputs
            ++ send_inputs (copies pa (max_count pa l) l.engine.cfg.max_prog.flat) ∷ [])
        × ((max_send pa l).engine.run_actions ≡ l.engine.run_actions + max_count pa l)
        × (max_count pa l ≤ l.batch_actions)
  unfolding max_send
  max_send-whole l v =
      let f = l.engine.cfg.max_prog.flat in
      let n = max_count pa l in
      let few : n ≤ l.batch_actions = ground arith in
      let sent : take (n * l.per) l.batch ≡ copies pa n f =
        ap (λ b. take (n * l.per) b) v.0
        ∙ take-copies (n * l.per) n l.batch_actions f few (ap (λ k. n * k) v.1) in
      (ap (λ is. l.engine.outputs ++ send_inputs is ∷ []) sent, refl, few)
