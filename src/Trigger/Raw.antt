-- ===== src/Trigger/Raw.antt =====
-- `handleRawInput` of src/trigger/TriggerEngine.cpp: raw mouse input as button events.
use infinity_clicker.Base.{
  ℕ, ◌+◌, ◌/◌, ◌%◌, ◌^◌, Bool, true, false, ◌&&◌, ◌||◌, not, if◌then◌else◌, ◌==◌, ◌≡◌, refl, ap,
  arith, List, [], ◌∷◌, ◌++◌, map,
}
use infinity_clicker.Input.KeyChord.{
  MouseButton, left, right, middle, x1, x2, wheel_up, wheel_down, wheel_left, wheel_right,
}
use infinity_clicker.Input.Sender.{tag_inf_click, u64}
use infinity_clicker.Trigger.{TriggerState, Notice, tag_bench}
use infinity_clicker.Trigger.Keys.{Observed}
use infinity_clicker.Trigger.Mouse.{MouseEvent, handle_mouse}
use infinity_clicker.Trigger.Run.{button, step, run}

-- `kMap`: the flag of a button event, by its bit.
abbrev pub raw_map : List (ℕ × (MouseButton × Bool))
raw_map =
    (0, (left, true))
    ∷ (1, (left, false))
    ∷ (2, (right, true))
    ∷ (3, (right, false))
    ∷ (4, (middle, true))
    ∷ (5, (middle, false))
    ∷ (6, (x1, true))
    ∷ (7, (x1, false))
    ∷ (8, (x2, true))
    ∷ (9, (x2, false))
    ∷ []

abbrev pub has_flag : ℕ → ℕ → Bool
has_flag flags bit = flags / 2 ^ bit % 2 == 1

unfoldable pub buttons_of : ℕ → List (ℕ × (MouseButton × Bool)) → List (MouseButton × Bool)
buttons_of flags [] = []
buttons_of flags ((bit, b) ∷ rest) =
    let others = buttons_of flags rest in if has_flag flags bit then b ∷ others else others

-- The events of a packet; `positive` is the sign of the wheel's movement.
unfoldable pub raw_events : ℕ → Bool → List (MouseButton × Bool)
raw_events flags positive =
    buttons_of flags raw_map
    ++ ((if has_flag flags 10 then (if positive then wheel_up else wheel_down, true) ∷ [] else [])
        ++ (if has_flag flags 11
            then (if positive then wheel_right else wheel_left, true) ∷ []
            else []))

abbrev pub mouse_event : ℕ → Bool → MouseButton × Bool → MouseEvent
mouse_event qpc own (b, down) = record { button = b; down = down; qpc = qpc; on_own_window = own }

unfoldable pub handle_all : Bool → List MouseEvent → TriggerState → TriggerState × List Notice
handle_all armed [] s = (s, [])
handle_all armed (e ∷ es) s =
    let o = handle_mouse e armed armed s in
    let (t, ns) = handle_all armed es o.state in (t, o.notices ++ ns)

-- A packet of raw input: its mark, its flags and the sign of its wheel.
unfoldable pub handle_raw :
    ℕ
    → ℕ
    → Bool
    → ℕ
    → Bool
    → Bool
    → Observed
    → TriggerState
    → Observed × (TriggerState × List Notice)
handle_raw extra flags positive qpc own armed o s =
    if flags == 0
    then (o, (s, []))
    else if extra == tag_inf_click
    then (record o { ours_mouse = u64 (o.ours_mouse + 1); ours = u64 (o.ours + 1) }, (s, []))
    else if extra == tag_bench && not s.cfg.accept_bench_tag
    then (o, (s, []))
    else (o, handle_all armed (map (mouse_event qpc own) (raw_events flags positive)) s)

handle_all-run :
    (armed : Bool) (es : List MouseEvent) (s : TriggerState)
    → handle_all armed es s ≡ run s (map (λ e. button e armed armed) es)
unfolding handle_all run step
handle_all-run armed [] s = refl
handle_all-run armed (e ∷ es) s =
    let o = handle_mouse e armed armed s in
    ap (λ r. (r.0, o.notices ++ r.1)) (handle_all-run armed es o.state)

-- A packet of raw input that is not the program's own, nor of a refused test, does what its button
-- and wheel events do one after the other when they come through the hook; any other changes nothing
-- but counters.
pub handle_raw-run :
    (extra flags : ℕ) (positive : Bool) (qpc : ℕ) (own armed : Bool)
    → (o : Observed) (s : TriggerState)
    → (handle_raw extra flags positive qpc own armed o s).1
      ≡ run s (
          if flags == 0
            || extra == tag_inf_click
            || (extra == tag_bench && not s.cfg.accept_bench_tag)
          then []
          else map
              (λ e. button e armed armed)
              (map (mouse_event qpc own) (raw_events flags positive)))
unfolding handle_raw run
handle_raw-run extra flags positive qpc own armed o s =
    let events = map (mouse_event qpc own) (raw_events flags positive) in
    ground (arith, handle_all-run armed events s)
