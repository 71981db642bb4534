-- ===== src/Trigger/Gate/Decision.antt =====
-- Which windows `evaluateGate` of src/trigger/TriggerEngine.cpp lets the program act on.
use infinity_clicker.Base.{
  ℕ, Bool, true, false, ◌&&◌, not, ◌==◌, ◌≡◌, ◌≢◌, ◌⊎◌, refl, ap, sym, subst, ◌∙◌, arith,
  if◌then◌else◌, Bool-cases, inl, inr, List, [], ◌∷◌,
}
use infinity_clicker.Engine.Timed.{is_empty}
use infinity_clicker.Input.KeyChord.{bool_eq}
use infinity_clicker.Trigger.Gate.{
  Gate, GateConfig, Window, PauseReason, no_reason, target_not_foreground, own_window, reason_code,
  is_target, name_of, decide_gate, evaluate_gate,
}

-- The window in the foreground is one of the program's own.
abbrev pub IsOwn : Window → Type 0
IsOwn w = (w.pid ≢ 0) × (w.is_own ≡ true)

-- It is the test pad, for whose runs the gate is open.
abbrev pub IsPad : GateConfig → Window → Type 0
IsPad c w = IsOwn w × (c.has_test_pad ≡ true) × (w.is_test_pad ≡ true)

module _ {Name : Type 0} (same_name : Name → Name → Bool) (no_name : Name) (process_name : ℕ → Name)
    (lower : Name → Name) where
  abbrev pub IsListed : Name → List Name → Type 0
  IsListed n [] = ⊥
  IsListed n (t ∷ ts) = (same_name t n ≡ true) ⊎ IsListed n ts

  -- The process is one that the filter lets through: there is no filter, it names no process, or it
  -- names this one.
  abbrev pub Passes : GateConfig → List Name → Name → Type 0
  Passes c [] n = Unit
  Passes c ts n = (c.filter_enabled ≡ false) ⊎ IsListed (lower n) ts

  -- What the program may act on, and why it may not otherwise.
  pub data Decision (c : GateConfig) (ts : List Name) (w : Window) (n : Name)
      : Bool → PauseReason → Type 0 where
    on_pad : IsPad c w → Decision c ts w n true no_reason
    on_own :
        ¬ (IsPad c w) → IsOwn w → c.pause_on_own_window ≡ true → Decision c ts w n false own_window
    on_other :
        ¬ (IsPad c w)
        → ¬ (IsOwn w × (c.pause_on_own_window ≡ true))
        → ¬ (Passes c ts n)
        → Decision c ts w n false target_not_foreground
    on_target :
        ¬ (IsOwn w × (c.pause_on_own_window ≡ true))
        → Passes c ts n
        → Decision c ts w n true no_reason

  is_target-IsListed :
      (n : Name) (ts : List Name)
      → is_target same_name no_name process_name lower n ts ≡ true
      → IsListed n ts
  is_target-IsListed n [] h = absurd (ground arith)
  is_target-IsListed n (t ∷ ts) h = elim (Bool-cases (same_name t n)) [
    | inl e ↦ inl e
    | inr e ↦ inr (is_target-IsListed n ts (ground (arith, e)))
  ]

  IsListed-is_target :
      (n : Name) (ts : List Name)
      → IsListed n ts
      → is_target same_name no_name process_name lower n ts ≡ true
  IsListed-is_target n [] h = absurd h
  IsListed-is_target n (t ∷ ts) (inl e) = ground (arith, e)
  IsListed-is_target n (t ∷ ts) (inr h) = ground (arith, IsListed-is_target n ts h)

  -- The test of the filter, and what it means.
  abbrev fails : GateConfig → List Name → Name → Bool
  fails c ts n =
      c.filter_enabled
      && not (is_empty ts)
      && not (is_target same_name no_name process_name lower (lower n) ts)

  fails-Passes :
      (c : GateConfig) (ts : List Name) (n : Name) → fails c ts n ≡ true → ¬ (Passes c ts n)
  fails-Passes c [] n h p = absurd (ground arith)
  fails-Passes c (t ∷ ts) n h (inl e) = absurd (ground arith)
  fails-Passes c (t ∷ ts) n h (inr l) =
      absurd (ground (arith, IsListed-is_target (lower n) (t ∷ ts) l))

  let_through-Passes :
      (c : GateConfig) (ts : List Name) (n : Name) → fails c ts n ≡ false → Passes c ts n
  let_through-Passes c [] n h = _
  let_through-Passes c (t ∷ ts) n h = elim (Bool-cases c.filter_enabled) [
    | inl e ↦ inr (is_target-IsListed (lower n) (t ∷ ts) (ground arith))
    | inr e ↦ inl e
  ]

  decide_gate-Decision :
      (c : GateConfig) (ts : List Name) (w : Window) (n : Name)
      → let d = decide_gate same_name no_name process_name lower c ts w n in
        Decision c ts w n d.0 d.1
  unfolding decide_gate
  decide_gate-Decision c ts w n =
      elim (Bool-cases (not (w.pid == 0) && w.is_own && c.has_test_pad && w.is_test_pad)) [
        | inl p ↦ rw p (on_pad (ground arith))
        | inr p ↦ elim (Bool-cases (not (w.pid == 0) && w.is_own && c.pause_on_own_window)) [
          | inl o ↦ rw (p, o) (on_own (ground arith) (ground arith) (ground arith))
          | inr o ↦ elim (Bool-cases (fails c ts n)) [
            | inl k ↦ rw (p, o, k) (on_other (ground arith) (ground arith) (fails-Passes c ts n k))
            | inr k ↦ rw (p, o, k) (on_target (ground arith) (let_through-Passes c ts n k))
          ]
        ]
      ]

  abbrev MyGate : Type 0
  MyGate = Gate same_name no_name process_name lower

  -- What the thread does with the gate: it looks at a window, with the configuration and the targets of
  -- the time, or forgets the process that it has looked up.
  pub data GateStep : Type 0 where
    looks : GateConfig → List Name → Window → GateStep
    forgets : GateStep

  unfoldable pub gate_step : MyGate → GateStep → MyGate
  unfolding evaluate_gate
  gate_step g (looks c ts w) = (evaluate_gate same_name no_name process_name lower c ts w g).0
  gate_step g forgets = record g { last_pid = 0 }

  unfoldable pub gate_steps : MyGate → List GateStep → MyGate
  gate_steps g [] = g
  gate_steps g (l ∷ ls) = gate_steps (gate_step g l) ls

  -- The name of the window's process.
  abbrev pub true_name : Window → Name
  true_name w = if w.pid == 0 then no_name else process_name w.pid

  -- The name that is kept is that of its process.
  abbrev IsCached : MyGate → Type 0
  IsCached g = g.last_pid ≢ 0 → g.last_name ≡ process_name g.last_pid

  name_of-true_name :
      (w : Window) (g : MyGate)
      → IsCached g
      → name_of same_name no_name process_name lower w.pid g ≡ true_name w
  unfolding name_of
  name_of-true_name w g h = elim (Bool-cases (w.pid == 0)) [
    | inl e ↦ rw e
    | inr e ↦ elim (Bool-cases (w.pid == g.last_pid)) [
      | inl p ↦ rw (e, p) (h (ground arith) ∙ ap process_name (ground arith))
      | inr p ↦ rw (e, p)
    ]
  ]

  gate_step-IsCached : (l : GateStep) (g : MyGate) → IsCached g → IsCached (gate_step g l)
  unfolding gate_step evaluate_gate
  gate_step-IsCached (looks c ts w) g h k = name_of-true_name w g h ∙ ground arith
  gate_step-IsCached forgets g h k = absurd (k refl)

  gate_steps-IsCached : (ls : List GateStep) (g : MyGate) → IsCached g → IsCached (gate_steps g ls)
  unfolding gate_steps
  gate_steps-IsCached [] g h = h
  gate_steps-IsCached (l ∷ ls) g h =
      gate_steps-IsCached ls (gate_step g l) (gate_step-IsCached l g h)

  -- The answer and the reason are the same.
  abbrev pub same_gate : MyGate → MyGate → Bool
  same_gate g g' = bool_eq g.is_open g'.is_open && reason_code g.reason == reason_code g'.reason

  -- From a gate that knows no process, after any looks at windows, with any configurations and targets
  -- between which the process that was looked up may be forgotten, a look opens the gate for the test
  -- pad, closes it for another window of the program's own if that pauses, and else opens it exactly if
  -- no filter is on, or it names no process, or the name of the window's process is in it; the reason
  -- says which. The engine and the sink are told exactly if the answer or the reason is a new one.
  pub evaluate_gate-decides :
      (ls : List GateStep) (g : MyGate) (c : GateConfig) (ts : List Name) (w : Window)
      → g.last_pid ≡ 0
      → let before = gate_steps g ls in
        let (after, told) = evaluate_gate same_name no_name process_name lower c ts w before in
        Decision c ts w (true_name w) after.is_open after.reason
        × (told ≡ not (same_gate before after))
  unfolding evaluate_gate
  evaluate_gate-decides ls g c ts w z =
      let before = gate_steps g ls in
      let known = gate_steps-IsCached ls g (λ k. absurd (k z)) in
      let named = name_of-true_name w before known in
      (
        subst
            (λ n.
              Decision c ts w (true_name w)
                (decide_gate same_name no_name process_name lower c ts w n).0
                (decide_gate same_name no_name process_name lower c ts w n).1)
            (sym named) (decide_gate-Decision c ts w (true_name w)),
        ground arith,
      )
