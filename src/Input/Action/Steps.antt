-- ===== src/Input/Action/Steps.antt =====
-- `compileAction` of src/input/InputAction.cpp: the steps are in time order and none is empty.
use infinity_clicker.Base.{
  ℕ, zero, suc, ◌+◌, ◌*◌, ◌≤◌, ◌<◌, Bool, true, false, ◌≡◌, refl, ap, arith, List, [], ◌∷◌, ◌++◌,
  if◌then◌else◌, ltb, length, length-append, length-map, reverse,
}
use infinity_clicker.Input.KeyChord.{valid, is_wheel, is_keyboard}
use infinity_clicker.Input.Action.{
  Input, InputAction, KeyInjectMode, ActionStep, push_event, group_events, last_offset,
  count_inputs, press_events, action_events, append_mods, press, compile_action, at_time, held_mods,
  mod_keys, clamp_repeat, k_max_step_inputs, mod_input,
}

-- Strictly later from step to step, and no step empty.
abbrev pub InOrder : List ActionStep → Type 0
InOrder [] = Unit {0}
InOrder (s ∷ []) = 0 < length s.inputs
InOrder (s ∷ s' ∷ rest) =
    (0 < length s.inputs) × (s.offset_ticks < s'.offset_ticks) × InOrder (s' ∷ rest)

-- Events that do not go back in time, from `t` on.
abbrev Ascending : ℕ → List (ℕ × Input) → Type 0
Ascending t [] = Unit {0}
Ascending t ((u, i) ∷ es) = (t ≤ u) × Ascending u es

abbrev Pushed : ℕ → List ActionStep → List ActionStep → Type 0
Pushed t ss r = InOrder r × (last_offset r ≡ t) × (count_inputs r ≡ count_inputs ss + 1)

push_event-InOrder :
    (ss : List ActionStep) (t : ℕ) (i : Input)
    → InOrder ss
    → last_offset ss ≤ t
    → count_inputs ss < k_max_step_inputs
    → Pushed t ss (push_event ss (t, i))
unfolding push_event last_offset count_inputs
push_event-InOrder [] t i o l c = omega arith
push_event-InOrder (s ∷ []) t i o l c = ground (arith, length-append s.inputs (i ∷ []))
push_event-InOrder (s ∷ s' ∷ []) t i o l c = ground (arith, push_event-InOrder (s' ∷ []) t i o.2 l)
push_event-InOrder (s ∷ s' ∷ s'' ∷ rest) t i o l c =
    ground (arith, push_event-InOrder (s' ∷ s'' ∷ rest) t i o.2 l)

group_events-InOrder :
    (ss : List ActionStep) (es : List (ℕ × Input))
    → InOrder ss
    → Ascending (last_offset ss) es
    → count_inputs ss + length es ≤ k_max_step_inputs
    → InOrder (group_events ss es)
unfolding group_events
group_events-InOrder ss [] o a c = o
group_events-InOrder ss ((t, i) ∷ es) o a c =
    let p = push_event-InOrder ss t i o a.0 (omega arith) in
    group_events-InOrder (push_event ss (t, i)) es p.0 (rw p.1 a.1) (omega (arith, p.2))

Ascending-weaken : (s t : ℕ) (es : List (ℕ × Input)) → s ≤ t → Ascending t es → Ascending s es
Ascending-weaken s t [] h a = tt
Ascending-weaken s t ((u, i) ∷ es) h a = (omega arith, a.1)

Ascending-at_time : (s t : ℕ) (is : List Input) → s ≤ t → Ascending s (at_time t is)
Ascending-at_time s t [] h = tt
Ascending-at_time s t (i ∷ is) h = (h, Ascending-at_time t t is (omega arith))

length-at_time : (t : ℕ) (is : List Input) → length (at_time t is) ≡ length is
length-at_time t [] = refl
length-at_time t (i ∷ is) = ap suc (length-at_time t is)

-- Where the next press starts.
abbrev next_start : ℕ → ℕ → ℕ → ℕ
next_start gap n t = if ltb 0 n then t + gap else t

next_start-le : (gap n t : ℕ) → t ≤ next_start gap n t
next_start-le gap n t = ground arith

count_inputs-push_event :
    (ss : List ActionStep) (e : ℕ × Input) → count_inputs (push_event ss e) ≡ count_inputs ss + 1
unfolding count_inputs push_event
count_inputs-push_event [] (t, i) = refl
count_inputs-push_event (s ∷ []) (t, i) = ground (arith, length-append s.inputs (i ∷ []))
count_inputs-push_event (s ∷ s' ∷ rest) (t, i) =
    omega (arith, count_inputs-push_event (s' ∷ rest) (t, i))

count_inputs-group_events :
    (ss : List ActionStep) (es : List (ℕ × Input))
    → count_inputs (group_events ss es) ≡ count_inputs ss + length es
unfolding group_events
count_inputs-group_events ss [] = omega arith
count_inputs-group_events ss (e ∷ es) =
    omega (arith, count_inputs-group_events (push_event ss e) es, count_inputs-push_event ss e)

count_inputs_nil : count_inputs [] ≡ 0
unfolding count_inputs
count_inputs_nil = refl

-- What follows the presses starts when they end.
press_events-Ascending :
    (notch : Bool) (hold gap : ℕ) (down up : Input) (n t : ℕ) (more : List (ℕ × Input))
    → Ascending (press_events notch hold gap down up n t).1 more
    → Ascending t ((press_events notch hold gap down up n t).0 ++ more)
      × (length (press_events notch hold gap down up n t).0 ≤ 2 * n)
unfolding press_events
press_events-Ascending notch hold gap down up zero t more a = (a, omega arith)
press_events-Ascending true hold gap down up (suc n) t more a =
    let ih = press_events-Ascending true hold gap down up n (next_start gap n t) more a in
    ((omega arith, Ascending-weaken t _ _ (next_start-le gap n t) ih.0), omega (arith, ih.1))
press_events-Ascending false hold gap down up (suc n) t more a =
    let ih = press_events-Ascending false hold gap down up n (next_start gap n (t + hold)) more a in
    (
      (
        omega arith,
        (omega arith, Ascending-weaken (t + hold) _ _ (next_start-le gap n (t + hold)) ih.0),
      ),
      omega (arith, ih.1),
    )

length-held_mods :
    (mods main_vk : ℕ) (ks : List (ℕ × ℕ)) → length (held_mods mods main_vk ks) ≤ length ks
unfolding held_mods
length-held_mods mods main_vk [] = omega arith
length-held_mods mods main_vk ((bit, vk) ∷ ks) = ground (arith, length-held_mods mods main_vk ks)

clamp_repeat-le : (n : ℕ) → clamp_repeat n ≤ 3
unfolding clamp_repeat
clamp_repeat-le n = ground arith

at_zero-Ascending :
    (is : List Input) (es : List (ℕ × Input)) → Ascending 0 es → Ascending 0 (at_time 0 is ++ es)
at_zero-Ascending [] es a = a
at_zero-Ascending (i ∷ is) es a = (omega arith, at_zero-Ascending is es a)

module _ (map_vk us_to_ticks : ℕ → ℕ) where
  length-append_mods :
      (mods main_vk : ℕ) (up : Bool) (mode : KeyInjectMode) (tag : ℕ)
      → length (append_mods map_vk us_to_ticks mods main_vk up mode tag) ≤ 4
  unfolding append_mods
  length-append_mods mods main_vk true mode tag = omega (
    arith,
    length-map (held_mods mods main_vk (reverse mod_keys))
        (mod_input map_vk us_to_ticks true mode tag),
    length-held_mods mods main_vk (reverse mod_keys),
  )
  length-append_mods mods main_vk false mode tag = omega (
    arith,
    length-map (held_mods mods main_vk mod_keys) (mod_input map_vk us_to_ticks false mode tag),
    length-held_mods mods main_vk mod_keys,
  )

  action_events-Ascending :
      (a : InputAction) (tag : ℕ)
      → let es = action_events map_vk us_to_ticks a tag in Ascending 0 es × (length es ≤ 14)
  unfolding action_events
  action_events-Ascending a tag =
      let c = a.chord in
      let main_vk : ℕ = if is_keyboard c then c.code else 0 in
      let hold = us_to_ticks a.down_time_us in
      let gap = us_to_ticks a.repeat_gap_us in
      let rounds = clamp_repeat a.repeat in
      let down = press map_vk us_to_ticks a tag true in
      let up = press map_vk us_to_ticks a tag false in
      let run = press_events (is_wheel c) hold gap down up rounds 0 in
      let before = append_mods map_vk us_to_ticks c.mods main_vk false a.key_mode tag in
      let after = append_mods map_vk us_to_ticks c.mods main_vk true a.key_mode tag in
      let rest =
        press_events-Ascending (is_wheel c) hold gap down up rounds 0 (at_time run.1 after)
          (Ascending-at_time run.1 run.1 after (omega arith)) in
      (
        at_zero-Ascending before (run.0 ++ at_time run.1 after) rest.0,
        omega (
          arith,
          length-append (at_time 0 before) (run.0 ++ at_time run.1 after),
          length-append run.0 (at_time run.1 after),
          length-at_time 0 before,
          length-at_time run.1 after,
          rest.1,
          clamp_repeat-le a.repeat,
          length-append_mods c.mods main_vk false a.key_mode tag,
          length-append_mods c.mods main_vk true a.key_mode tag,
        ),
      )

  -- For an action with a key or button assigned, the steps of the program are strictly later from
  -- one to the next, none is empty, and all together they hold at most 14 inputs, so no step is
  -- split for want of room.
  pub compile_action-steps :
      (a : InputAction) (tag : ℕ)
      → valid a.chord ≡ true
      → let p = compile_action map_vk us_to_ticks a tag in
        InOrder p.steps × (p.span_ticks ≡ last_offset p.steps) × (p.inputs_per_action ≤ 14)
  unfolding compile_action
  compile_action-steps a tag v =
      let events = action_events map_vk us_to_ticks a tag in
      let e = action_events-Ascending a tag in
      rw v (
        group_events-InOrder [] events tt (unfold last_offset in e.0)
            (unfold count_inputs in omega (arith, e.1)),
        refl,
        omega (arith, e.1, count_inputs-group_events [] events, count_inputs_nil),
      )
