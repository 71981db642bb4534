-- ===== src/Trigger/Gaps.antt =====
-- Sequences that `handleKey` of src/trigger/TriggerEngine.cpp does not treat as it means to.
use infinity_clicker.Base.{ℕ, Bool, true, false, ◌||◌, ◌≡◌, arith, List, [], ◌∷◌}
use infinity_clicker.Input.KeyChord.{chord_eq}
use infinity_clicker.Trigger.{
  TriggerConfig, TriggerState, Notice, apply_config, trigger_down, trigger_up, off, capturing,
  key_matches, trigger_edge,
}
use infinity_clicker.Trigger.Keys.{KeyEvent, handle_key, capture_up, emergency_or_trigger}
use infinity_clicker.Trigger.Emergency.{stops}

abbrev pub reports_edge : List Notice → Bool
reports_edge [] = false
reports_edge (trigger_down qpc ∷ ns) = true
reports_edge (trigger_up qpc ∷ ns) = true
reports_edge (_ ∷ ns) = reports_edge ns

-- The same key, without a release between: what auto-repeat sends.
abbrev pub repeated : KeyEvent → ℕ → KeyEvent
repeated e qpc = record e { qpc = qpc }

-- If the trigger key is released while a binding is being captured, the release is not reported
-- and the trigger still counts as down, so the next press after the capture is not reported
-- either.
pub capture_loses_release :
    (up down : KeyEvent) (armed : Bool) (s : TriggerState)
    → capturing s.capture_state ≡ true
    → s.trig_down ≡ true
    → up.down ≡ false
    → down.down ≡ true
    → key_matches s.cfg.emergency down.vk down.ext ≡ false
    → key_matches s.cfg.trigger down.vk down.ext ≡ true
    → let lost = handle_key up armed s in
      let next = handle_key down armed (record lost.state { capture_state = off }) in
      (reports_edge lost.notices ≡ false)
      × (lost.state.trig_down ≡ true)
      × (reports_edge next.notices ≡ false)
unfolding handle_key capture_up emergency_or_trigger trigger_edge
capture_loses_release up down armed s c t u d n m = ground arith

-- If the trigger is given another binding while it is down, no release of any key is reported for
-- it any more.
pub rebind_loses_release :
    (c : TriggerConfig) (e : KeyEvent) (armed : Bool) (s : TriggerState)
    → chord_eq c.trigger s.cfg.trigger ≡ false
    → capturing s.capture_state ≡ false
    → e.down ≡ false
    → (reports_edge (handle_key e armed (apply_config c s)).notices ≡ false)
      × ((handle_key e armed (apply_config c s)).state.trig_down ≡ false)
unfolding handle_key emergency_or_trigger trigger_edge apply_config
rebind_loses_release c e armed s n k d = ground arith

-- Some of the key events, each with what `isArmed` of the sink answers, reports the emergency stop.
abbrev pub any_stops : List (KeyEvent × Bool) → TriggerState → Bool
any_stops [] s = false
any_stops ((e, armed) ∷ es) s =
    let o = handle_key e armed s in stops o.notices || any_stops es o.state

-- A press of the key.
abbrev pub IsPressOf : ℕ → KeyEvent → Type 0
IsPressOf vk e = (e.down ≡ true) × (e.vk ≡ vk)
