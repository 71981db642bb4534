-- ===== src/Trigger/Run.antt =====
-- The trigger thread of src/trigger/TriggerEngine.cpp over a sequence of inputs and requests.
use infinity_clicker.Base.{Bool, if◌then◌else◌, List, [], ◌∷◌, ◌++◌}
use infinity_clicker.Trigger.{TriggerState, Notice, off, keys_only, keys_and_mouse}
use infinity_clicker.Trigger.Keys.{KeyEvent, handle_key}
use infinity_clicker.Trigger.Mouse.{MouseEvent, handle_mouse}

pub data Event : Type 0 where
  key : (e : KeyEvent) (armed : Bool) → Event
  button : (e : MouseEvent) (armed armed_after : Bool) → Event
  begin_capture : (allow_mouse : Bool) → Event
  cancel_capture : Event

unfoldable pub step : TriggerState → Event → TriggerState × List Notice
step s (key e armed) = let o = handle_key e armed s in (o.state, o.notices)
step s (button e armed armed_after) =
    let o = handle_mouse e armed armed_after s in (o.state, o.notices)
step s (begin_capture allow_mouse) =
    (record s { capture_state = if allow_mouse then keys_and_mouse else keys_only }, [])
step s cancel_capture = (record s { capture_state = off }, [])

unfoldable pub run : TriggerState → List Event → TriggerState × List Notice
run s [] = (s, [])
run s (e ∷ es) = let (t, ns) = step s e in let (u, ms) = run t es in (u, ns ++ ms)
