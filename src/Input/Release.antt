-- ===== src/Input/Release.antt =====
-- A compiled action (src/input/InputAction.cpp), as the sender tracks it (src/input/InputSender.cpp),
-- holds nothing down when it is over.
use mathlib.Core.List.{map-append}
use infinity_clicker.Base.{
  ℕ, zero, suc, ◌+◌, ◌<◌, ◌≤◌, Bool, true, false, ◌&&◌, ◌||◌, not, if◌then◌else◌, ltb, ◌==◌, ◌≡◌,
  refl, ap, sym, ◌∙◌, inl, inr, arith, List, [], ◌∷◌, ◌++◌, map, reverse, contains, All, Bool-cases,
  subst,
}
use infinity_clicker.Input.KeyChord.{
  MouseButton, left, is_wheel, is_keyboard, is_mouse, valid, to_button,
}
use infinity_clicker.Input.Action.{
  Input, InputAction, KeyInjectMode, mod_input, append_mods, press, press_events, action_events,
  compile_action, at_time, held_mods, mod_keys, clamp_repeat, make_key_input, make_mouse_input,
}
use infinity_clicker.Input.Action.Flat.{compile_action-flat, inputs_of, inputs_of-at_time}
use infinity_clicker.Input.Sender.{Sender, track_all}
use infinity_clicker.Input.Sender.Tracking.{
  key_edge, button_edge, after_all, after_all-append, track_all-key, track_all-button,
}

-- No key and no button is held.
pub record IsIdle (s : Sender) : Type 0 where
  pub no_key : (vk : ℕ) → s.held_keys vk ≡ false
  pub no_button : (b : ℕ) → s.held_mouse b ≡ false

abbrev IsVk : ℕ → Type 0
IsVk k = (0 < k) × (k < 256)

abbrev IsModKey : ℕ × ℕ → Type 0
IsModKey (bit, k) = IsVk k

held_mods-IsVk :
    (mods main_vk : ℕ) (ks : List (ℕ × ℕ)) → All IsModKey ks → All IsVk (held_mods mods main_vk ks)
unfolding held_mods
held_mods-IsVk mods main_vk [] a = tt
held_mods-IsVk mods main_vk ((bit, k) ∷ ks) a = ground (arith, held_mods-IsVk mods main_vk ks a.1)

held_mods-reverse :
    (mods main_vk vk : ℕ)
    → contains vk (held_mods mods main_vk (reverse mod_keys))
      ≡ contains vk (held_mods mods main_vk mod_keys)
unfolding held_mods
held_mods-reverse mods main_vk vk = ground arith

-- An event that keeps a released key released, or a press and release of it.
after_presses :
    (edge : Input → Bool → Bool) (notch : Bool) (hold gap : ℕ) (down up : Input) (n t : ℕ)
    → (notch ≡ true → edge down false ≡ false)
    → edge up (edge down false) ≡ false
    → after_all edge (inputs_of (press_events notch hold gap down up n t).0) false ≡ false
unfolding press_events
after_presses edge notch hold gap down up zero t a b = refl
after_presses edge true hold gap down up (suc n) t a b =
    subst
      (λ h.
        after_all edge
          (inputs_of (press_events true hold gap down up n (if ltb 0 n then t + gap else t)).0) h
        ≡ false)
      (sym (a refl))
      (after_presses edge true hold gap down up n (if ltb 0 n then t + gap else t) a b)
after_presses edge false hold gap down up (suc n) t a b =
    subst
      (λ h.
        after_all edge
          (inputs_of
            (press_events false hold gap down up n
              (if ltb 0 n then t + hold + gap else t + hold)).0)
          h
        ≡ false)
      (sym b)
      (after_presses edge false hold gap down up n (if ltb 0 n then t + hold + gap else t + hold) a
        b)

make_mouse_input-key_edge :
    (vk : ℕ) (b : MouseButton) (down : Bool) (delta tag : ℕ) (held : Bool)
    → key_edge vk (make_mouse_input b down delta tag) held ≡ held
unfolding make_mouse_input
make_mouse_input-key_edge vk left down delta tag held = refl
make_mouse_input-key_edge vk _ down delta tag held = refl

make_mouse_input-button_edge :
    (n : ℕ) (b : MouseButton) (delta tag : ℕ)
    → button_edge n
        (make_mouse_input b false delta tag)
        (button_edge n (make_mouse_input b true delta tag) false)
      ≡ false
unfolding make_mouse_input
make_mouse_input-button_edge n left delta tag = ground arith
make_mouse_input-button_edge n _ delta tag = ground arith

notch-button_edge :
    (n code : ℕ) (delta tag : ℕ)
    → 5 ≤ code
    → code ≤ 8
    → button_edge n (make_mouse_input (to_button code) true delta tag) false ≡ false
unfolding make_mouse_input to_button
notch-button_edge n code delta tag lo hi = ground arith

-- The three parts of an action in turn.
after_parts :
    (edge : Input → Bool → Bool) (is js : List Input) (ps : List (ℕ × Input)) (last : ℕ)
    (held : Bool)
    → after_all edge (inputs_of (at_time 0 is ++ (ps ++ at_time last js))) held
      ≡ after_all edge js (after_all edge (inputs_of ps) (after_all edge is held))
after_parts edge is js ps last held =
    rw
      (
        map-append {B = Input} (λ e. e.1) (at_time 0 is) (ps ++ at_time last js),
        map-append {B = Input} (λ e. e.1) ps (at_time last js),
        inputs_of-at_time 0 is,
        inputs_of-at_time last js,
        after_all-append edge is (inputs_of ps ++ js) held,
      )
      (after_all-append edge (inputs_of ps) js (after_all edge is held))

-- Presses between modifiers that are pressed and released together.
mods_around :
    (edge : Input → Bool → Bool) (down presses up : List Input) (touched : Bool)
    → after_all edge down false ≡ touched
    → after_all edge presses false ≡ false
    → ((held : Bool) → after_all edge up held ≡ (not touched && held))
    → after_all edge up (after_all edge presses (after_all edge down false)) ≡ false
mods_around edge down presses up true d p u = u (after_all edge presses (after_all edge down false))
mods_around edge down presses up false d p u = rw (d, p) (u false)

module _ (map_vk us_to_ticks : ℕ → ℕ) where
  after_mods_down :
      (vk : ℕ) (ks : List ℕ) (mode : KeyInjectMode) (tag : ℕ) (held : Bool)
      → All IsVk ks
      → after_all (key_edge vk) (map (mod_input map_vk us_to_ticks false mode tag) ks) held
        ≡ (contains vk ks || held)
  unfolding mod_input
  after_mods_down vk [] mode tag held a = refl
  after_mods_down vk (k ∷ ks) mode tag held a =
      subst
        (λ h.
          after_all (key_edge vk) (map (mod_input map_vk us_to_ticks false mode tag) ks) h
          ≡ (contains vk (k ∷ ks) || held))
        (sym (mod_down k held a.0))
        (after_mods_down vk ks mode tag (vk == k || held) a.1 ∙ ground arith)
    where
      mod_down :
          (k : ℕ) (held : Bool)
          → IsVk k
          → key_edge vk (mod_input map_vk us_to_ticks false mode tag k) held ≡ (vk == k || held)
      mod_down k held a = ground arith

  after_mods_up :
      (vk : ℕ) (ks : List ℕ) (mode : KeyInjectMode) (tag : ℕ) (held : Bool)
      → All IsVk ks
      → after_all (key_edge vk) (map (mod_input map_vk us_to_ticks true mode tag) ks) held
        ≡ (not (contains vk ks) && held)
  unfolding mod_input
  after_mods_up vk [] mode tag held a = refl
  after_mods_up vk (k ∷ ks) mode tag held a =
      subst
        (λ h.
          after_all (key_edge vk) (map (mod_input map_vk us_to_ticks true mode tag) ks) h
          ≡ (not (contains vk (k ∷ ks)) && held))
        (sym (mod_up k held a.0))
        (after_mods_up vk ks mode tag (not (vk == k) && held) a.1 ∙ ground arith)
    where
      mod_up :
          (k : ℕ) (held : Bool)
          → IsVk k
          → key_edge vk (mod_input map_vk us_to_ticks true mode tag k) held
            ≡ (not (vk == k) && held)
      mod_up k held a = ground arith

  mods-button_edge :
      (b : ℕ) (up : Bool) (ks : List ℕ) (mode : KeyInjectMode) (tag : ℕ) (held : Bool)
      → after_all (button_edge b) (map (mod_input map_vk us_to_ticks up mode tag) ks) held ≡ held
  unfolding mod_input
  mods-button_edge b up [] mode tag held = refl
  mods-button_edge b up (k ∷ ks) mode tag held = mods-button_edge b up ks mode tag held

  press-key_edge :
      (a : InputAction) (tag vk : ℕ)
      → let down = press map_vk us_to_ticks a tag true in
        let up = press map_vk us_to_ticks a tag false in
        (is_wheel a.chord ≡ true → key_edge vk down false ≡ false)
        × (key_edge vk up (key_edge vk down false) ≡ false)
  unfolding press make_key_input
  press-key_edge a tag vk = elim (Bool-cases (is_mouse a.chord)) [
    | inl m ↦ rw m (
      λ w. make_mouse_input-key_edge vk (to_button a.chord.code) true a.wheel_delta tag false,
      rw (make_mouse_input-key_edge vk (to_button a.chord.code) true a.wheel_delta tag false)
          (make_mouse_input-key_edge vk (to_button a.chord.code) false a.wheel_delta tag false),
    )
    | inr k ↦ rw k (λ w. cc, ground arith)
  ]

  press-button_edge :
      (a : InputAction) (tag b : ℕ)
      → let down = press map_vk us_to_ticks a tag true in
        let up = press map_vk us_to_ticks a tag false in
        (is_wheel a.chord ≡ true → button_edge b down false ≡ false)
        × (button_edge b up (button_edge b down false) ≡ false)
  unfolding press make_key_input
  press-button_edge a tag b = elim (Bool-cases (is_mouse a.chord)) [
    | inl m ↦ rw m (
      λ w. notch-button_edge b a.chord.code a.wheel_delta tag (ground arith) (ground arith),
      make_mouse_input-button_edge b (to_button a.chord.code) a.wheel_delta tag,
    )
    | inr k ↦ rw k (λ w. refl, refl)
  ]

  abbrev press_run : InputAction → ℕ → List (ℕ × Input) × ℕ
  press_run a tag =
      press_events (is_wheel a.chord) (us_to_ticks a.down_time_us) (us_to_ticks a.repeat_gap_us)
        (press map_vk us_to_ticks a tag true) (press map_vk us_to_ticks a tag false)
        (clamp_repeat a.repeat) 0

  run-released :
      (edge : Input → Bool → Bool) (a : InputAction) (tag : ℕ)
      → (is_wheel a.chord ≡ true → edge (press map_vk us_to_ticks a tag true) false ≡ false)
        × (edge
              (press map_vk us_to_ticks a tag false)
              (edge (press map_vk us_to_ticks a tag true) false)
            ≡ false)
      → after_all edge (inputs_of (press_run a tag).0) false ≡ false
  run-released edge a tag p =
      after_presses edge (is_wheel a.chord) (us_to_ticks a.down_time_us)
        (us_to_ticks a.repeat_gap_us) (press map_vk us_to_ticks a tag true)
        (press map_vk us_to_ticks a tag false) (clamp_repeat a.repeat) 0 p.0 p.1

  -- What a whole action leaves of one key, and of one button.
  action-key :
      (a : InputAction) (tag vk : ℕ)
      → after_all (key_edge vk) (inputs_of (action_events map_vk us_to_ticks a tag)) false ≡ false
  unfolding action_events append_mods
  action-key a tag vk =
      let c = a.chord in
      let main_vk : ℕ = if is_keyboard c then c.code else 0 in
      let forward = held_mods c.mods main_vk mod_keys in
      let backward = held_mods c.mods main_vk (reverse mod_keys) in
      let p = press-key_edge a tag vk in
      let run = press_run a tag in
      let before = append_mods map_vk us_to_ticks c.mods main_vk false a.key_mode tag in
      let after = append_mods map_vk us_to_ticks c.mods main_vk true a.key_mode tag in
      let downs : after_all (key_edge vk) before false ≡ contains vk forward =
        after_mods_down vk forward a.key_mode tag false
          (held_mods-IsVk c.mods main_vk mod_keys (omega arith))
        ∙ ground arith in
      let ups : (held : Bool)
          → after_all (key_edge vk) after held ≡ (not (contains vk forward) && held) =
        λ held.
          after_mods_up vk backward a.key_mode tag held
            (held_mods-IsVk c.mods main_vk (reverse mod_keys) (omega arith))
          ∙ ap (λ t. not t && held) (held_mods-reverse c.mods main_vk vk) in
      after_parts (key_edge vk) before after run.0 run.1 false
      ∙ mods_around (key_edge vk) before (inputs_of run.0) after (contains vk forward) downs
          (run-released (key_edge vk) a tag p) ups

  action-button :
      (a : InputAction) (tag b : ℕ)
      → after_all (button_edge b) (inputs_of (action_events map_vk us_to_ticks a tag)) false ≡ false
  unfolding action_events append_mods
  action-button a tag b =
      let c = a.chord in
      let main_vk : ℕ = if is_keyboard c then c.code else 0 in
      let p = press-button_edge a tag b in
      let run = press_run a tag in
      let before = append_mods map_vk us_to_ticks c.mods main_vk false a.key_mode tag in
      let after = append_mods map_vk us_to_ticks c.mods main_vk true a.key_mode tag in
      after_parts (button_edge b) before after run.0 run.1 false
      ∙ mods_around (button_edge b) before (inputs_of run.0) after false
          (mods-button_edge b false (held_mods c.mods main_vk mod_keys) a.key_mode tag false)
          (run-released (button_edge b) a tag p)
          (λ held.
            mods-button_edge b true (held_mods c.mods main_vk (reverse mod_keys)) a.key_mode tag
              held)

  -- After the inputs of an action with a key or button assigned, sent from a state that holds
  -- nothing, nothing is held: neither the main key or button nor a modifier, whatever the keyboard
  -- layout, the repeat count and the times are.
  pub compile_action-releases :
      (a : InputAction) (tag : ℕ) (s : Sender)
      → valid a.chord ≡ true
      → IsIdle s
      → IsIdle (track_all s (compile_action map_vk us_to_ticks a tag).flat)
  compile_action-releases a tag s v idle =
      let flat = (compile_action-flat map_vk us_to_ticks a tag v).0 in
      record {
        no_key = λ vk. rw (flat, track_all-key _ s vk, idle.no_key vk) (action-key a tag vk);
        no_button =
            λ b. rw (flat, track_all-button _ s b, idle.no_button b) (action-button a tag b);
      }
