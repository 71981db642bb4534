-- ===== src/Examples/Triggers.antt =====
-- Key and mouse events for the trigger F6 and the emergency key F12.
use infinity_clicker.Base.{inl, Bool, ◌==◌, ℕ, ◌≡◌, refl, not, true, false, List, [], ◌∷◌, some}
use infinity_clicker.Input.KeyChord.{KeyChord, keyboard, left, no_chord, chord_eq}
use infinity_clicker.Trigger.{
  TriggerConfig, TriggerState, hook, start_state, keys_only, off, apply_config, key_matches,
  mods_ok, phys_mods,
}
use infinity_clicker.Trigger.Keys.{KeyEvent, Observed, handle_key, emergency_or_trigger}
use infinity_clicker.Trigger.Mouse.{MouseEvent}
use infinity_clicker.Trigger.Run.{Event, key, button, begin_capture, cancel_capture, run}
use infinity_clicker.Trigger.Edges.{edges, run-edges}
use infinity_clicker.Trigger.Hooks.{Sources, Granted}
use infinity_clicker.Trigger.Gate.{Gate, GateConfig, Window, no_reason, evaluate_gate}
use infinity_clicker.Trigger.Gate.Decision.{
  Decision, GateStep, looks, forgets, gate_steps, true_name, same_gate, evaluate_gate-decides,
}
use infinity_clicker.Trigger.Swallow.{released, handle_keys, handle_key-swallow_pair}
use infinity_clicker.Trigger.Gaps.{reports_edge, capture_loses_release, rebind_loses_release}

abbrev on_key : (code mods : ℕ) → KeyChord
on_key code mods = record no_chord { device = keyboard; code = code; mods = mods }

abbrev config : TriggerConfig
config = record {
  trigger = on_key 117 0;
  suppress_trigger = true;
  accept_injected = false;
  accept_bench_tag = false;
  emergency = on_key 123 0;
  mouse_backend = hook;
  observe_mouse = false;
  has_own_window = false;
}

abbrev press_of : ℕ → ℕ → KeyEvent
press_of vk qpc = record { down = true; vk = vk; scan = 0; ext = false; qpc = qpc }

abbrev release_of : ℕ → ℕ → KeyEvent
release_of vk qpc = record { down = false; vk = vk; scan = 0; ext = false; qpc = qpc }

abbrev click_left : MouseEvent
click_left = record { button = left; down = true; qpc = 3; on_own_window = false }

abbrev fresh : TriggerState
fresh = record {
  cfg = config;
  phys_key = λ vk. false;
  swallow_up = λ vk. false;
  swallow_mouse_up = λ b. false;
  trig_down = false;
  trig_suppressed = false;
  capture_mod_vk = 0;
  capture_mod_scan = 0;
  capture_mod_ext = false;
  capture_state = off;
  physical_button_events = 0;
}

abbrev nothing_seen : Observed
nothing_seen = record { ours_mouse = 0; ours_keyboard = 0; ours = 0; foreign_injected = 0 }

-- The trigger is pressed, repeated, and released, with a capture begun and cancelled between.
abbrev session : List Event
session =
    key (press_of 117 1) true
    ∷ key (press_of 117 2) true
    ∷ begin_capture true
    ∷ cancel_capture
    ∷ key (release_of 117 3) true
    ∷ button click_left true true
    ∷ []

run-edges_example :
    edges false (run (start_state config) session).1
    ≡ some (run (start_state config) session).0.trig_down
run-edges_example = run-edges config session

emergency_swallowed : (handle_key (press_of 123 1) true fresh).swallow ≡ true
unfolding handle_key emergency_or_trigger key_matches mods_ok phys_mods
emergency_swallowed = refl

-- A press of another key, and an auto-repeat of this one.
abbrev between : List (KeyEvent × Bool)
between = (press_of 65 2, true) ∷ (press_of 123 3, true) ∷ []

handle_key-swallow_pair_example :
    (handle_key
      (released (press_of 123 1) 4)
      true
      (handle_keys between (handle_key (press_of 123 1) true fresh).state)).swallow
    ≡ true
handle_key-swallow_pair_example =
    handle_key-swallow_pair (press_of 123 1) true true 4 fresh between refl emergency_swallowed
      (inl refl, (inl refl, _))

-- F6 is the trigger and not the emergency key, and F12 the other way round.
f6_only :
    (key_matches (on_key 123 0) 117 false ≡ false) × (key_matches (on_key 117 0) 117 false ≡ true)
unfolding key_matches
f6_only = (refl, refl)

-- F6 is held down and a binding is being captured.
abbrev held_capturing : TriggerState
held_capturing = record fresh { capture_state = keys_only; trig_down = true }

capture_loses_release_example :
    let lost = handle_key (release_of 117 3) true held_capturing in
    let next = handle_key (press_of 117 4) true (record lost.state { capture_state = off }) in
    (reports_edge lost.notices ≡ false)
    × (lost.state.trig_down ≡ true)
    × (reports_edge next.notices ≡ false)
capture_loses_release_example =
    capture_loses_release (release_of 117 3) (press_of 117 4) true held_capturing refl refl refl
      refl f6_only.0 f6_only.1

-- The trigger becomes F7.
abbrev rebound : TriggerConfig
rebound = record config { trigger = on_key 118 0 }

f7_new : chord_eq rebound.trigger config.trigger ≡ false
unfolding chord_eq
f7_new = refl

rebind_loses_release_example :
    let s = apply_config rebound (record fresh { trig_down = true }) in
    (reports_edge (handle_key (release_of 117 3) true s).notices ≡ false)
    × ((handle_key (release_of 117 3) true s).state.trig_down ≡ false)
rebind_loses_release_example =
    rebind_loses_release rebound (release_of 117 3) true (record fresh { trig_down = true }) f7_new
      refl refl

-- A binding is being captured, and the emergency key is pressed and kept down.
abbrev asking : TriggerState
asking = record fresh { capture_state = keys_only }

abbrev granted : Granted
granted = record { mouse_hook_ok = true; raw_ok = true; kb_hook_ok = true; hotkey_ok = true }

abbrev all_off : Sources
all_off = record { mouse_hook = false; raw_on = false; kb_hook = false; hotkey_on = false }

-- Programs are named by numbers, and the only target is 42.
abbrev gate_config : GateConfig
gate_config = record { filter_enabled = true; pause_on_own_window = true; has_test_pad = false }

abbrev game : Window
game = record { pid = 42; is_own = false; is_test_pad = false }

abbrev first_gate : Gate {Name = ℕ} (λ m n. m == n) 0 (λ p. p) (λ n. n)
first_gate = record { last_pid = 0; last_name = 0; fg_name = 0; is_open = true; reason = no_reason }

-- The program's own window has been in the foreground before.
abbrev looked : List (GateStep {Name = ℕ} (λ m n. m == n) 0 (λ p. p) (λ n. n))
looked =
    looks gate_config (42 ∷ []) (record { pid = 7; is_own = true; is_test_pad = false })
    ∷ forgets
    ∷ []

evaluate_gate-decides_example :
    let before = gate_steps {Name = ℕ} (λ m n. m == n) 0 (λ p. p) (λ n. n) first_gate looked in
    let (after, told) =
      evaluate_gate {Name = ℕ}
        (λ m n. m == n)
        0
        (λ p. p)
        (λ n. n)
        gate_config
        (42 ∷ [])
        game
        before in
    Decision {Name = ℕ}
      (λ m n. m == n)
      0
      (λ p. p)
      (λ n. n)
      gate_config
      (42 ∷ [])
      game
      (true_name {Name = ℕ} (λ m n. m == n) 0 (λ p. p) (λ n. n) game)
      after.is_open
      after.reason
    × (told ≡ not (same_gate {Name = ℕ} (λ m n. m == n) 0 (λ p. p) (λ n. n) before after))
evaluate_gate-decides_example =
    evaluate_gate-decides {Name = ℕ} (λ m n. m == n) 0 (λ p. p) (λ n. n) looked first_gate
      gate_config (42 ∷ []) game refl
