-- ===== src/Trigger/Edges.antt =====
-- The edges that src/trigger/TriggerEngine.cpp reports to the scheduler: every press is reported
-- once, and released once.
use infinity_clicker.Base.{
  ℕ, Bool, true, false, ◌&&◌, if◌then◌else◌, leb, ◌≡◌, refl, subst, sym, ◌∙◌, ap, arith, List, [],
  ◌∷◌, ◌++◌, Option, none, some,
}
use infinity_clicker.Input.KeyChord.{is_mouse, MouseButton, button_code}
use infinity_clicker.Input.Sender.{set_at}
use infinity_clicker.Trigger.{
  TriggerConfig, TriggerState, Outcome, Notice, trigger_down, trigger_up, emergency_stop, captured,
  off, start_state, trigger_edge, mods_ok, key_matches,
}
use infinity_clicker.Trigger.Run.{Event, key, button, begin_capture, cancel_capture, step, run}
use infinity_clicker.Trigger.Keys.{
  KeyEvent, handle_key, capture_down, capture_up, emergency_or_trigger,
}
use infinity_clicker.Trigger.Mouse.{
  MouseEvent, handle_mouse, owe_up, capture_mouse, wheel_trigger, emergency_or_button, count_button,
}

-- Reads a sequence of notices, from whether the trigger is down; `none` if a press or a release is
-- reported out of turn.
abbrev pub edges : Bool → List Notice → Option Bool
edges down [] = some down
edges down (trigger_down qpc ∷ ns) = if down then none else edges true ns
edges down (trigger_up qpc ∷ ns) = if down then edges false ns else none
edges down (emergency_stop ∷ ns) = edges down ns
edges down (captured c ∷ ns) = edges down ns

-- The trigger is a wheel direction.
abbrev notch_trigger : TriggerConfig → Bool
notch_trigger c = is_mouse c.trigger && leb 5 c.trigger.code

-- A wheel never holds the trigger down.
pub record IsSound (s : TriggerState) : Type 0 where
  pub notch_up : notch_trigger s.cfg ≡ true → s.trig_down ≡ false

-- What a part of a handler keeps: the turns of the edges, and the soundness of the state.
record Keeps (s : TriggerState) (o : Outcome) : Type 0 where
  in_turn : edges s.trig_down o.notices ≡ some o.state.trig_down
  sound : IsSound o.state

trigger_edge-Keeps :
    (down : Bool) (qpc : ℕ) (armed mods swallow : Bool) (s : TriggerState)
    → IsSound s
    → notch_trigger s.cfg ≡ false
    → Keeps s (trigger_edge down qpc armed mods swallow s)
unfolding trigger_edge
trigger_edge-Keeps down qpc armed mods swallow s v n = ground arith

owe_up-state :
    (b : MouseButton) (s : TriggerState)
    → ((owe_up b s).trig_down ≡ s.trig_down) × ((owe_up b s).cfg ≡ s.cfg)
unfolding owe_up
owe_up-state b s = ground arith

emergency_or_button-Keeps :
    (e : MouseEvent) (armed armed_after swallow : Bool) (s : TriggerState)
    → IsSound s
    → Keeps s (emergency_or_button e armed armed_after swallow s)
unfolding emergency_or_button wheel_trigger
emergency_or_button-Keeps e armed armed_after swallow s v = ground (
  arith,
  trigger_edge-Keeps e.down e.qpc armed (mods_ok s s.cfg.trigger.mods) swallow s v,
  owe_up-state e.button s,
)

capture_mouse-Keeps : (e : MouseEvent) (s : TriggerState) → IsSound s → Keeps s (capture_mouse e s)
unfolding capture_mouse
capture_mouse-Keeps e s v = ground (arith, owe_up-state e.button (record s { capture_state = off }))

count_button-state :
    (b : MouseButton) (s : TriggerState)
    → ((count_button b s).trig_down ≡ s.trig_down) × ((count_button b s).cfg ≡ s.cfg)
unfolding count_button
count_button-state b s = ground arith

Keeps-from : (s t : TriggerState) (o : Outcome) → t.trig_down ≡ s.trig_down → Keeps t o → Keeps s o
Keeps-from s t o e k = record {
  in_turn = subst (λ d. edges d o.notices ≡ some o.state.trig_down) e k.in_turn;
  sound = k.sound;
}

IsSound-from :
    (s t : TriggerState) → t.trig_down ≡ s.trig_down → t.cfg ≡ s.cfg → IsSound s → IsSound t
IsSound-from s t d c v = record { notch_up = λ n. d ∙ v.notch_up (ap notch_trigger (sym c) ∙ n) }

handle_mouse-Keeps :
    (e : MouseEvent) (armed armed_after : Bool) (s : TriggerState)
    → IsSound s
    → Keeps s (handle_mouse e armed armed_after s)
unfolding handle_mouse
handle_mouse-Keeps e armed armed_after s v =
    let t = count_button e.button s in
    let same = count_button-state e.button s in
    let tv = IsSound-from s t same.0 same.1 v in
    let cleared : TriggerState = record t {
      swallow_mouse_up = set_at s.swallow_mouse_up (button_code e.button) false;
    } in
    Keeps-from s t _ same.0 (
      ground (
        arith,
        capture_mouse-Keeps e t tv,
        emergency_or_button-Keeps e armed armed_after false t tv,
        emergency_or_button-Keeps e armed armed_after true cleared,
        tv,
      ))

capture_down-Keeps :
    (e : KeyEvent) (was_down : Bool) (s : TriggerState)
    → IsSound s
    → Keeps s (capture_down e was_down s)
unfolding capture_down
capture_down-Keeps e was_down s v = ground arith

capture_up-Keeps : (e : KeyEvent) (s : TriggerState) → IsSound s → Keeps s (capture_up e s)
unfolding capture_up
capture_up-Keeps e s v = ground arith

key_trigger :
    (c : TriggerConfig) (vk : ℕ) (ext : Bool)
    → key_matches c.trigger vk ext ≡ true
    → notch_trigger c ≡ false
unfolding key_matches
key_trigger c vk ext h = ground arith

emergency_or_trigger-Keeps :
    (e : KeyEvent) (was_down armed swallow : Bool) (s : TriggerState)
    → IsSound s
    → Keeps s (emergency_or_trigger e was_down armed swallow s)
unfolding emergency_or_trigger
emergency_or_trigger-Keeps e was_down armed swallow s v = ground (
  arith,
  trigger_edge-Keeps e.down e.qpc armed (mods_ok s s.cfg.trigger.mods) swallow s v,
  key_trigger s.cfg e.vk e.ext,
)

handle_key-Keeps :
    (e : KeyEvent) (armed : Bool) (s : TriggerState) → IsSound s → Keeps s (handle_key e armed s)
unfolding handle_key
handle_key-Keeps e armed s v =
    let t : TriggerState = record s { phys_key = set_at s.phys_key e.vk e.down } in
    let cleared : TriggerState = record t { swallow_up = set_at s.swallow_up e.vk false } in
    ground (
      arith,
      emergency_or_trigger-Keeps e (s.phys_key e.vk) armed false t,
      emergency_or_trigger-Keeps e (s.phys_key e.vk) armed true cleared,
      capture_down-Keeps e (s.phys_key e.vk) t,
      capture_up-Keeps e t,
    )

edges-append :
    (down down' : Bool) (ns ms : List Notice)
    → edges down ns ≡ some down'
    → edges down (ns ++ ms) ≡ edges down' ms
edges-append down down' [] ms h = cc
edges-append true down' (trigger_down qpc ∷ ns) ms h = cc
edges-append false down' (trigger_down qpc ∷ ns) ms h = edges-append true down' ns ms h
edges-append true down' (trigger_up qpc ∷ ns) ms h = edges-append false down' ns ms h
edges-append false down' (trigger_up qpc ∷ ns) ms h = cc
edges-append down down' (emergency_stop ∷ ns) ms h = edges-append down down' ns ms h
edges-append down down' (captured c ∷ ns) ms h = edges-append down down' ns ms h

pub step-IsSound :
    (s : TriggerState) (e : Event)
    → IsSound s
    → (edges s.trig_down (step s e).1 ≡ some (step s e).0.trig_down) × IsSound (step s e).0
unfolding step
step-IsSound s (key e armed) v = let k = handle_key-Keeps e armed s v in (k.in_turn, k.sound)
step-IsSound s (button e armed armed_after) v =
    let k = handle_mouse-Keeps e armed armed_after s v in (k.in_turn, k.sound)
step-IsSound s (begin_capture allow_mouse) v = (refl, record { notch_up = v.notch_up })
step-IsSound s cancel_capture v = (refl, record { notch_up = v.notch_up })

run_edges :
    (s : TriggerState) (es : List Event)
    → IsSound s
    → edges s.trig_down (run s es).1 ≡ some (run s es).0.trig_down
unfolding run
run_edges s [] v = refl
run_edges s (e ∷ es) v =
    let k = step-IsSound s e v in
    edges-append s.trig_down (step s e).0.trig_down (step s e).1 (run (step s e).0 es).1 k.0
    ∙ run_edges (step s e).0 es k.1

-- From the start of the trigger thread under any configuration, over any sequence of key, button,
-- wheel and capture events, the presses and releases reported to the scheduler take strict turns,
-- beginning with a press, and the last one reported agrees with `trigDown_`.
pub run-edges :
    (c : TriggerConfig) (es : List Event)
    → edges false (run (start_state c) es).1 ≡ some (run (start_state c) es).0.trig_down
unfolding start_state
run-edges c es = run_edges (start_state c) es (record { notch_up = λ n. refl })
