-- ===== src/Trigger/Emergency.antt =====
-- The emergency stop of src/trigger/TriggerEngine.cpp, and what never reaches the trigger logic.
use infinity_clicker.Base.{ℕ, Bool, true, false, ◌&&◌, not, ◌≡◌, ◌≢◌, arith, List, [], ◌∷◌}
use infinity_clicker.Input.Sender.{tag_inf_click, set_at}
use infinity_clicker.Trigger.{
  TriggerState, Notice, emergency_stop, capturing, key_matches, mods_ok, trigger_edge,
  classify_physical,
}
use infinity_clicker.Trigger.Keys.{KeyEvent, Observed, handle_key, kb_proc, emergency_or_trigger}
use infinity_clicker.Trigger.Mouse.{MouseEvent, mouse_proc}

abbrev pub stops : List Notice → Bool
stops [] = false
stops (emergency_stop ∷ ns) = true
stops (_ ∷ ns) = stops ns

-- The key that is pressed is the emergency key, with its modifiers, and was not down.
abbrev pub emergency_pressed : KeyEvent → TriggerState → Bool
emergency_pressed e s =
    e.down
    && not (s.phys_key e.vk)
    && key_matches s.cfg.emergency e.vk e.ext
    && mods_ok (record s { phys_key = set_at s.phys_key e.vk e.down }) s.cfg.emergency.mods

-- While no binding is captured, `handleKey` reports the emergency stop exactly when the emergency
-- key goes down with its modifiers held, whether the trigger is down, suppressed or armed.
pub handle_key-stops :
    (e : KeyEvent) (armed : Bool) (s : TriggerState)
    → capturing s.capture_state ≡ false
    → stops (handle_key e armed s).notices ≡ emergency_pressed e s
unfolding handle_key emergency_or_trigger trigger_edge
handle_key-stops e armed s c = ground arith

-- The event may count as physical: it is not the program's own output, an injected event of other
-- software only if the configuration accepts it, and a test event only in a self-test.
abbrev pub MayTrigger : ℕ → Bool → TriggerState → Type 0
MayTrigger extra injected s =
    (extra ≢ tag_inf_click) × (classify_physical s.cfg extra injected ≡ true)

-- The keyboard hook never lets the program's own output, or what the configuration does not accept,
-- reach the trigger logic: such an event is passed on, tells the sink nothing and changes nothing
-- but the counters.
pub kb_proc-ignores :
    (extra : ℕ) (injected : Bool) (e : KeyEvent) (armed : Bool) (o : Observed) (s : TriggerState)
    → ¬ (MayTrigger extra injected s)
    → let r = (kb_proc extra injected e armed o s).1 in
      (r.state ≡ s) × (r.swallow ≡ false) × (r.notices ≡ [])
unfolding kb_proc
kb_proc-ignores extra injected e armed o s h = ground arith

-- Nor does the mouse hook, for a button or a wheel message.
pub mouse_proc-ignores :
    (extra : ℕ) (injected : Bool) (e : MouseEvent) (armed armed_after : Bool)
    → (o : Observed) (s : TriggerState) → ¬ (MayTrigger extra injected s)
    → let r = (mouse_proc extra injected e armed armed_after o s).1 in
      (r.state ≡ s) × (r.swallow ≡ false) × (r.notices ≡ [])
unfolding mouse_proc
mouse_proc-ignores extra injected e armed armed_after o s h = ground arith
