-- ===== src/Trigger/Hooks.antt =====
-- `updateHooks` of src/trigger/TriggerEngine.cpp: which sources of input are switched on. Whether
-- Windows grants each request is an argument.
use infinity_clicker.Base.{Bool, true, false, ◌&&◌, ◌||◌, not, if◌then◌else◌, ◌==◌, ◌≡◌, arith}
use infinity_clicker.Input.KeyChord.{is_mouse, is_keyboard}
use infinity_clicker.Trigger.{TriggerConfig, TriggerBackend, hook, raw_input, CaptureState}
use infinity_clicker.Trigger.Mouse.{captures_mouse}

pub record Sources : Type 0 where
  pub mouse_hook : Bool
  pub raw_on : Bool
  pub kb_hook : Bool
  pub hotkey_on : Bool

-- What Windows answers to a request for each source.
pub record Granted : Type 0 where
  pub mouse_hook_ok : Bool
  pub raw_ok : Bool
  pub kb_hook_ok : Bool
  pub hotkey_ok : Bool

abbrev pub is_hook : TriggerBackend → Bool
is_hook hook = true
is_hook raw_input = false

unfoldable pub mouse_bound : TriggerConfig → Bool
mouse_bound c = is_mouse c.trigger || is_mouse c.emergency

unfoldable pub needs_hook : CaptureState → TriggerConfig → Bool
needs_hook capture c =
    captures_mouse capture
    || c.observe_mouse
    || (mouse_bound c && (is_hook c.mouse_backend || c.suppress_trigger))

unfoldable pub update_hooks : Granted → CaptureState → TriggerConfig → Sources → Sources
update_hooks g capture c s =
    let need_hook = needs_hook capture c in
    let need_raw = not need_hook && mouse_bound c in
    record {
      mouse_hook = if need_hook then s.mouse_hook || g.mouse_hook_ok else false;
      raw_on = if g.raw_ok then need_raw else s.raw_on;
      kb_hook = s.kb_hook || g.kb_hook_ok;
      hotkey_on = is_keyboard c.emergency && not (c.emergency.mods == 0) && g.hotkey_ok;
    }

-- If Windows grants the requests for the mouse, a trigger or an emergency stop on the mouse gets its
-- events from exactly one source, the hook or raw input, whatever was on before; if neither is on
-- the mouse, raw input is off.
pub update_hooks-one_source :
    (g : Granted) (capture : CaptureState) (c : TriggerConfig) (s : Sources)
    → g.mouse_hook_ok ≡ true
    → g.raw_ok ≡ true
    → let s' = update_hooks g capture c s in
      (mouse_bound c ≡ true → s'.raw_on ≡ not s'.mouse_hook)
      × (mouse_bound c ≡ false → s'.raw_on ≡ false)
      × (s'.mouse_hook ≡ needs_hook capture c)
unfolding update_hooks
update_hooks-one_source g capture c s h r = ground arith
