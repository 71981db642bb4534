-- ===== src/Examples/Actions.antt =====
-- Actions compiled for a layout that gives every key the scan code 30, with 10 ticks to a
-- microsecond.
use infinity_clicker.Base.{ℕ, ◌*◌, ◌≡◌, refl, false, none, length, ◌≤◌}
use infinity_clicker.Input.KeyChord.{keyboard, vk_to_scan, mod_bit_for_vk}
use infinity_clicker.Input.Action.{
  InputAction, scan_code, compile_action, action_events, last_offset, flatten_steps, append_mods,
  held_mods, press, press_events, group_events, push_event, count_inputs, clamp_repeat, mod_input,
}
use infinity_clicker.Input.Action.Flat.{inputs_of, compile_action-flat}
use infinity_clicker.Input.Action.Steps.{InOrder, compile_action-steps}
use infinity_clicker.Input.Sender.{init, track_all, tag_inf_click}
use infinity_clicker.Input.Release.{IsIdle, compile_action-releases}

abbrev layout : ℕ → ℕ
layout vk = 30

abbrev ticks : ℕ → ℕ
ticks us = us * 10

-- Ctrl + Shift + K, pressed twice.
abbrev ctrl_shift_k : InputAction
ctrl_shift_k = record {
  chord = record { device = keyboard; code = 75; scan = 0; extended = false; mods = 3 };
  down_time_us = 500;
  repeat = 2;
  repeat_gap_us = 1000;
  wheel_delta = 120;
  key_mode = scan_code;
}

compile_action-flat_example :
    let p = compile_action layout ticks ctrl_shift_k tag_inf_click in
    let events = action_events layout ticks ctrl_shift_k tag_inf_click in
    (p.flat ≡ inputs_of events)
    × (p.inputs_per_action ≡ length (inputs_of events))
    × (p.flat ≡ flatten_steps p.steps)
    × (p.error ≡ none)
compile_action-flat_example = compile_action-flat layout ticks ctrl_shift_k tag_inf_click refl

compile_action-steps_example :
    let p = compile_action layout ticks ctrl_shift_k tag_inf_click in
    InOrder p.steps × (p.span_ticks ≡ last_offset p.steps) × (p.inputs_per_action ≤ 14)
compile_action-steps_example = compile_action-steps layout ticks ctrl_shift_k tag_inf_click refl

-- A double press of a chord with two modifiers is eight inputs, over two holds and a gap.
compile_test :
    let p = compile_action layout ticks ctrl_shift_k tag_inf_click in
    (p.inputs_per_action ≡ 8) × (p.span_ticks ≡ 20000)
unfolding compile_action action_events append_mods held_mods press press_events group_events
    push_event last_offset count_inputs clamp_repeat mod_input vk_to_scan mod_bit_for_vk
compile_test = (refl, refl)

init-IsIdle : IsIdle (init none)
unfolding init
init-IsIdle = record { no_key = λ vk. refl; no_button = λ b. refl }

compile_action-releases_example :
    IsIdle (track_all (init none) (compile_action layout ticks ctrl_shift_k tag_inf_click).flat)
compile_action-releases_example =
    compile_action-releases layout ticks ctrl_shift_k tag_inf_click (init none) refl init-IsIdle
