-- ===== src/Trigger/Keys.antt =====
-- `handleKey` and `kbProc` of src/trigger/TriggerEngine.cpp.
use infinity_clicker.Base.{
  ℕ, ◌+◌, ◌%◌, Bool, true, false, ◌&&◌, ◌||◌, not, if◌then◌else◌, ◌==◌, List, [], ◌∷◌,
}
use infinity_clicker.Input.KeyChord.{KeyChord, keyboard, is_modifier_vk}
use infinity_clicker.Input.Sender.{set_at, tag_inf_click, u64}
use infinity_clicker.Trigger.{
  TriggerState, Outcome, Notice, emergency_stop, captured, off, capturing, phys_mods, mods_ok,
  key_matches, trigger_edge, classify_physical,
}

-- A key event: the virtual key, its scan code and prefix, and the time.
pub record KeyEvent : Type 0 where
  pub down : Bool
  pub vk : ℕ
  pub scan : ℕ
  pub ext : Bool
  pub qpc : ℕ

abbrev pub outcome : TriggerState → Bool → List Notice → Outcome
outcome s swallow ns = record { state = s; swallow = swallow; used = true; notices = ns }

unfoldable pub captured_key : TriggerState → ℕ → ℕ → Bool → KeyChord
captured_key s vk scan ext = record {
  device = keyboard;
  code = vk;
  scan = scan;
  extended = ext;
  mods = phys_mods s.phys_key;
}

unfoldable pub capture_down : KeyEvent → Bool → TriggerState → Outcome
capture_down e was_down s =
    let owed = record s { swallow_up = set_at s.swallow_up e.vk true } in
    if is_modifier_vk e.vk
    then outcome
        (if was_down then owed else record owed {
          capture_mod_vk = e.vk;
          capture_mod_scan = e.scan;
          capture_mod_ext = e.ext;
        })
        true []
    else outcome (record owed { capture_mod_vk = 0; capture_state = off }) true
        (captured (captured_key s e.vk e.scan e.ext) ∷ [])

-- A key-up while a binding is captured: a modifier that was pressed alone is the binding.
unfoldable pub capture_up : KeyEvent → TriggerState → Outcome
capture_up e s =
    let alone = s.capture_mod_vk == e.vk in
    let s' = if alone then record s { capture_mod_vk = 0; capture_state = off } else s in
    outcome
      (if s.swallow_up e.vk then record s' { swallow_up = set_at s.swallow_up e.vk false } else s')
      (s.swallow_up e.vk)
      (if alone
        then captured (captured_key s e.vk s.capture_mod_scan s.capture_mod_ext) ∷ []
        else [])

-- Parts 3 and 4 of `handleKey`: the emergency stop, and the trigger.
unfoldable pub emergency_or_trigger : KeyEvent → Bool → Bool → Bool → TriggerState → Outcome
emergency_or_trigger e was_down armed swallow s =
    if e.down
      && not was_down
      && key_matches s.cfg.emergency e.vk e.ext
      && mods_ok s s.cfg.emergency.mods
    then outcome (record s { swallow_up = set_at s.swallow_up e.vk true }) true
        (emergency_stop ∷ [])
    else if key_matches s.cfg.trigger e.vk e.ext
    then (if e.down && s.trig_down
        then outcome s (swallow || s.trig_suppressed) []
        else trigger_edge e.down e.qpc armed (mods_ok s s.cfg.trigger.mods) swallow s)
    else record { state = s; swallow = swallow; used = false; notices = [] }

-- `armed` is what `isArmed` of the sink answers while the event is handled.
unfoldable pub handle_key : KeyEvent → Bool → TriggerState → Outcome
handle_key e armed s =
    let was_down = s.phys_key e.vk in
    let s' = record s { phys_key = set_at s.phys_key e.vk e.down } in
    if capturing s.capture_state
    then (if e.down then capture_down e was_down s' else capture_up e s')
    else if not e.down && s.swallow_up e.vk
    then (let cleared = record s' { swallow_up = set_at s.swallow_up e.vk false } in
        if s.trig_down && key_matches s.cfg.trigger e.vk e.ext
        then emergency_or_trigger e was_down armed true cleared
        else outcome cleared true [])
    else emergency_or_trigger e was_down armed false s'

-- The counters of events seen in the hook chain.
pub record Observed : Type 0 where
  pub ours_mouse : ℕ
  pub ours_keyboard : ℕ
  pub ours : ℕ
  pub foreign_injected : ℕ

-- `kbProc`: the marks of an event, then the handler if the event counts as physical.
unfoldable pub kb_proc : ℕ → Bool → KeyEvent → Bool → Observed → TriggerState → Observed × Outcome
kb_proc extra injected e armed o s =
    let passed : Outcome = record { state = s; swallow = false; used = false; notices = [] } in
    if extra == tag_inf_click
    then (record o { ours_keyboard = u64 (o.ours_keyboard + 1); ours = u64 (o.ours + 1) }, passed)
    else if not (classify_physical s.cfg extra injected)
    then (
      if injected then record o { foreign_injected = u64 (o.foreign_injected + 1) } else o,
      passed,
    )
    else (o, handle_key (record e { vk = e.vk % 256 }) armed s)
