-- ===== src/Trigger/Mouse.antt =====
-- `handleMouse`, `mouseProc` and `handleRawInput` of src/trigger/TriggerEngine.cpp.
use infinity_clicker.Base.{
  ℕ, ◌+◌, Bool, true, false, ◌&&◌, ◌||◌, not, if◌then◌else◌, ◌==◌, leb, [], ◌∷◌,
}
use infinity_clicker.Input.KeyChord.{KeyChord, MouseButton, button_code, is_mouse, chord_mouse}
use infinity_clicker.Input.Sender.{set_at, tag_inf_click, u64}
use infinity_clicker.Trigger.{
  TriggerState, Outcome, trigger_down, trigger_up, emergency_stop, captured, off, keys_and_mouse,
  CaptureState, phys_mods, mods_ok, trigger_edge, classify_physical,
}
use infinity_clicker.Trigger.Keys.{Observed, outcome}

-- A button or wheel event; `on_own_window` is whether the pointer is inside the program's window.
pub record MouseEvent : Type 0 where
  pub button : MouseButton
  pub down : Bool
  pub qpc : ℕ
  pub on_own_window : Bool

abbrev pub is_wheel_button : MouseButton → Bool
is_wheel_button b = leb 5 (button_code b)

abbrev pub captures_mouse : CaptureState → Bool
captures_mouse keys_and_mouse = true
captures_mouse _ = false

-- The chord is this button.
abbrev pub is_button : KeyChord → MouseButton → Bool
is_button c b = is_mouse c && c.code == button_code b

unfoldable pub owe_up : MouseButton → TriggerState → TriggerState
owe_up b s =
    if is_wheel_button b
    then s
    else record s { swallow_mouse_up = set_at s.swallow_mouse_up (button_code b) true }

unfoldable pub capture_mouse : MouseEvent → TriggerState → Outcome
capture_mouse e s =
    if button_code e.button == 0 && s.cfg.has_own_window && e.on_own_window
    then record { state = s; swallow = false; used = false; notices = [] }
    else if e.down
    then outcome (owe_up e.button (record s { capture_state = off })) true
        (captured (chord_mouse e.button (phys_mods s.phys_key)) ∷ [])
    else outcome s false []

-- A wheel notch is a momentary press: both edges at once. `armed_after` is what `isArmed` answers
-- after them.
unfoldable pub wheel_trigger : MouseEvent → Bool → Bool → TriggerState → Outcome
wheel_trigger e armed_after swallow s =
    if e.down && mods_ok s s.cfg.trigger.mods
    then outcome s (swallow || (s.cfg.suppress_trigger && armed_after))
        (trigger_down e.qpc ∷ trigger_up e.qpc ∷ [])
    else outcome s swallow []

unfoldable pub emergency_or_button : MouseEvent → Bool → Bool → Bool → TriggerState → Outcome
emergency_or_button e armed armed_after swallow s =
    if e.down && is_button s.cfg.emergency e.button && mods_ok s s.cfg.emergency.mods
    then outcome (owe_up e.button s) true (emergency_stop ∷ [])
    else if is_button s.cfg.trigger e.button
    then (if is_wheel_button e.button
        then wheel_trigger e armed_after swallow s
        else trigger_edge e.down e.qpc armed (mods_ok s s.cfg.trigger.mods) swallow s)
    else record { state = s; swallow = swallow; used = false; notices = [] }

unfoldable pub count_button : MouseButton → TriggerState → TriggerState
count_button b s =
    if is_wheel_button b
    then s
    else record s { physical_button_events = u64 (s.physical_button_events + 1) }

-- `armed` and `armed_after` are what `isArmed` of the sink answers before and after the edges.
unfoldable pub handle_mouse : MouseEvent → Bool → Bool → TriggerState → Outcome
handle_mouse e armed armed_after s =
    let b = button_code e.button in
    let wheel = is_wheel_button e.button in
    let s' = count_button e.button s in
    if captures_mouse s.capture_state
    then capture_mouse e s'
    else if not wheel && not e.down && s.swallow_mouse_up b
    then (let cleared = record s' { swallow_mouse_up = set_at s.swallow_mouse_up b false } in
        if s.trig_down && is_button s.cfg.trigger e.button
        then emergency_or_button e armed armed_after true cleared
        else outcome cleared true [])
    else emergency_or_button e armed armed_after false s'

-- `mouseProc` for a button or wheel message; a movement is passed on before this.
unfoldable pub mouse_proc :
    ℕ → Bool → MouseEvent → Bool → Bool → Observed → TriggerState → Observed × Outcome
mouse_proc extra injected e armed armed_after o s =
    let passed : Outcome = record { state = s; swallow = false; used = false; notices = [] } in
    if extra == tag_inf_click
    then (record o { ours_mouse = u64 (o.ours_mouse + 1); ours = u64 (o.ours + 1) }, passed)
    else if not (classify_physical s.cfg extra injected)
    then (
      if injected then record o { foreign_injected = u64 (o.foreign_injected + 1) } else o,
      passed,
    )
    else (o, handle_mouse e armed armed_after s)
