-- ===== src/Input/Action/Flat.antt =====
-- `compileAction` of src/input/InputAction.cpp: grouping by time loses and reorders nothing.
use mathlib.Core.List.{append_assoc, append-nil}
use infinity_clicker.Base.{
  ℕ, true, ◌≡◌, refl, ap, sym, ◌∙◌, arith, List, [], ◌∷◌, ◌++◌, map, none, length, length-append,
}
use infinity_clicker.Input.KeyChord.{valid}
use infinity_clicker.Input.Action.{
  Input, InputAction, ActionStep, push_event, group_events, count_inputs, flatten_steps,
  action_events, compile_action, at_time,
}

flatten_steps-push_event :
    (ss : List ActionStep) (e : ℕ × Input)
    → flatten_steps (push_event ss e) ≡ flatten_steps ss ++ e.1 ∷ []
unfolding flatten_steps push_event
flatten_steps-push_event [] (t, i) = refl
flatten_steps-push_event (s ∷ []) (t, i) =
    ground (arith, append-nil s.inputs, append-nil (s.inputs ++ i ∷ []))
flatten_steps-push_event (s ∷ s' ∷ rest) (t, i) =
    ap (◌++◌ s.inputs) (flatten_steps-push_event (s' ∷ rest) (t, i))
    ∙ sym (append_assoc s.inputs (flatten_steps (s' ∷ rest)) (i ∷ []))

abbrev pub inputs_of : List (ℕ × Input) → List Input
inputs_of = map (λ e. e.1)

flatten_steps-group_events :
    (ss : List ActionStep) (es : List (ℕ × Input))
    → flatten_steps (group_events ss es) ≡ flatten_steps ss ++ inputs_of es
unfolding group_events
flatten_steps-group_events ss [] = sym (append-nil (flatten_steps ss))
flatten_steps-group_events ss (e ∷ es) =
    flatten_steps-group_events (push_event ss e) es
    ∙ (ap (λ (l : List Input). l ++ inputs_of es) (flatten_steps-push_event ss e)
        ∙ append_assoc (flatten_steps ss) (e.1 ∷ []) (inputs_of es))

count_inputs-length : (ss : List ActionStep) → count_inputs ss ≡ length (flatten_steps ss)
unfolding count_inputs flatten_steps
count_inputs-length [] = refl
count_inputs-length (s ∷ ss) =
    omega (arith, length-append s.inputs (flatten_steps ss), count_inputs-length ss)

pub inputs_of-at_time : (t : ℕ) (is : List Input) → inputs_of (at_time t is) ≡ is
inputs_of-at_time t [] = refl
inputs_of-at_time t (i ∷ is) = ap (◌∷◌ i) (inputs_of-at_time t is)

module _ (map_vk us_to_ticks : ℕ → ℕ) where
  -- For an action with a key or button assigned, the flat program is the modifiers pressed, then
  -- the presses and releases of the main key, then the modifiers released, in that order and each
  -- event once; `inputsPerAction` is its length, and no error is reported.
  pub compile_action-flat :
      (a : InputAction) (tag : ℕ)
      → valid a.chord ≡ true
      → let p = compile_action map_vk us_to_ticks a tag in
        let events = action_events map_vk us_to_ticks a tag in
        (p.flat ≡ inputs_of events)
        × (p.inputs_per_action ≡ length (inputs_of events))
        × (p.flat ≡ flatten_steps p.steps)
        × (p.error ≡ none)
  unfolding compile_action flatten_steps
  compile_action-flat a tag v =
      let events = action_events map_vk us_to_ticks a tag in
      let flat = flatten_steps-group_events [] events in
      rw v (flat, count_inputs-length (group_events [] events) ∙ ap length flat, refl, refl)
