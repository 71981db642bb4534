-- ===== src/Input/Action.antt =====
-- src/input/InputAction.h and InputAction.cpp: an action and its compiled program.
use infinity_clicker.Base.{
  ℕ, zero, suc, ◌+◌, ◌-◌, ◌%◌, ◌^◌, Bool, true, false, ◌&&◌, ◌||◌, not, if◌then◌else◌, ltb, leb,
  ◌==◌, List, [], ◌∷◌, ◌++◌, map, reverse, Option, none, some, length,
}
use infinity_clicker.Input.Vk
use infinity_clicker.Input.KeyChord.{
  KeyChord, MouseButton, left, right, middle, x1, x2, wheel_up, wheel_down, wheel_left, wheel_right,
  count, to_button, mod_ctrl, mod_shift, mod_alt, mod_win, has_bits, is_mouse, is_keyboard, valid,
  is_wheel, mod_bit_for_vk, vk_to_scan,
}
pub mod Flat
pub mod Steps

pub data KeyInjectMode : Type 0 where
  scan_code virtual_key : KeyInjectMode

-- `mi.dwFlags`: the program never sets two of the MOUSEEVENTF flags in one event.
pub data MouseFlag : Type 0 where
  no_flag left_down left_up right_down right_up middle_down middle_up : MouseFlag
  x_down x_up wheel hwheel : MouseFlag

-- A Windows `INPUT`. The three flags of a key event are KEYEVENTF_KEYUP, _EXTENDEDKEY and
-- _SCANCODE; `tag` is dwExtraInfo.
pub data Input : Type 0 where
  mouse_input : (flag : MouseFlag) (mouse_data tag : ℕ) → Input
  key_input : (vk scan : ℕ) (key_up extended scancode : Bool) (tag : ℕ) → Input

abbrev pub xbutton1 : ℕ
xbutton1 = 1

abbrev pub xbutton2 : ℕ
xbutton2 = 2

-- `DWORD(-delta)` of the 32-bit pattern of `delta`
abbrev pub negate32 : ℕ → ℕ
negate32 delta = (2 ^ 32 - delta) % 2 ^ 32

unfoldable pub make_mouse_input : MouseButton → Bool → ℕ → ℕ → Input
make_mouse_input left down delta tag = mouse_input (if down then left_down else left_up) 0 tag
make_mouse_input right down delta tag = mouse_input (if down then right_down else right_up) 0 tag
make_mouse_input middle down delta tag = mouse_input (if down then middle_down else middle_up) 0 tag
make_mouse_input x1 down delta tag = mouse_input (if down then x_down else x_up) xbutton1 tag
make_mouse_input x2 down delta tag = mouse_input (if down then x_down else x_up) xbutton2 tag
make_mouse_input wheel_up down delta tag = mouse_input wheel delta tag
make_mouse_input wheel_down down delta tag = mouse_input wheel (negate32 delta) tag
make_mouse_input wheel_right down delta tag = mouse_input hwheel delta tag
make_mouse_input wheel_left down delta tag = mouse_input hwheel (negate32 delta) tag
make_mouse_input count down delta tag = mouse_input no_flag 0 tag

is_scan_code : KeyInjectMode → Bool
is_scan_code scan_code = true
is_scan_code virtual_key = false

unfoldable pub make_key_input : ℕ → ℕ → Bool → Bool → KeyInjectMode → ℕ → Input
unfolding is_scan_code
make_key_input vk scan extended up mode tag =
    key_input vk scan up extended (is_scan_code mode && not (scan == 0)) tag

pub record InputAction : Type 0 where
  pub chord : KeyChord
  pub down_time_us : ℕ
  pub repeat : ℕ
  pub repeat_gap_us : ℕ
  pub wheel_delta : ℕ
  pub key_mode : KeyInjectMode

pub record ActionStep : Type 0 where
  pub offset_ticks : ℕ
  pub inputs : List Input

pub data CompileError : Type 0 where
  no_action_assigned : CompileError

pub record ActionProgram : Type 0 where
  pub steps : List ActionStep
  pub span_ticks : ℕ
  pub inputs_per_action : ℕ
  pub flat : List Input
  pub error : Option CompileError

abbrev pub k_max_step_inputs : ℕ
k_max_step_inputs = 16

-- `kModKeys`: the bit of a modifier and the key that is pressed for it.
abbrev pub mod_keys : List (ℕ × ℕ)
mod_keys =
    (mod_ctrl, Vk.lcontrol) ∷ (mod_shift, Vk.lshift) ∷ (mod_alt, Vk.lmenu) ∷ (mod_win, Vk.lwin) ∷ []

-- The modifier keys to hold around `main_vk`: those asked for, less the main key's own.
unfoldable pub held_mods : ℕ → ℕ → List (ℕ × ℕ) → List ℕ
held_mods mods main_vk [] = []
held_mods mods main_vk ((bit, vk) ∷ rest) =
    if not (has_bits mods bit) || has_bits (mod_bit_for_vk main_vk) bit
    then held_mods mods main_vk rest
    else vk ∷ held_mods mods main_vk rest

-- A numeric keypad digit or decimal point is injected by its virtual key.
is_numpad_vk : ℕ → Bool
is_numpad_vk code = leb Vk.numpad0 code && leb code Vk.numpad9 || code == Vk.decimal

-- The presses of an action, `n` rounds to go from time `t`, and the time of the last event.
unfoldable pub press_events : Bool → ℕ → ℕ → Input → Input → ℕ → ℕ → List (ℕ × Input) × ℕ
press_events notch hold gap down up zero t = ([], t)
press_events notch hold gap down up (suc n) t =
    let released = if notch then t else t + hold in
    let (rest, last) =
      press_events notch hold gap down up n (if ltb 0 n then released + gap else released) in
    (if notch then (t, down) ∷ rest else (t, down) ∷ (released, up) ∷ rest, last)

unfoldable pub clamp_repeat : ℕ → ℕ
clamp_repeat n = if ltb n 1 then 1 else if ltb 3 n then 3 else n

abbrev pub at_time : ℕ → List Input → List (ℕ × Input)
at_time t = map (λ i. (t, i))

-- What the program does not implement: `MapVirtualKeyW`, and `clk::usToTicks` (floating point).
module _ (map_vk us_to_ticks : ℕ → ℕ) where
  unfoldable pub mod_input : Bool → KeyInjectMode → ℕ → ℕ → Input
  unfolding make_key_input
  mod_input up mode tag vk =
      let (scan, ext) = vk_to_scan map_vk vk in make_key_input vk scan ext up mode tag

  unfoldable pub append_mods : ℕ → ℕ → Bool → KeyInjectMode → ℕ → List Input
  append_mods mods main_vk up mode tag =
      let order = if up then reverse mod_keys else mod_keys in
      map (mod_input up mode tag) (held_mods mods main_vk order)

  -- The scan code and prefix that the main key is sent with.
  main_scan : KeyChord → ℕ × Bool
  main_scan c =
      let (scan, ext) = vk_to_scan map_vk c.code in
      let derived = is_keyboard c && c.scan == 0 in
      (
        if derived then scan else c.scan,
        if is_keyboard c && c.code == Vk.return
            then c.extended
            else if derived
            then ext
            else c.extended,
      )

  unfoldable pub press : InputAction → ℕ → Bool → Input
  unfolding is_numpad_vk main_scan vk_to_scan
  press a tag down =
      let c = a.chord in
      if is_mouse c
      then make_mouse_input (to_button c.code) down a.wheel_delta tag
      else make_key_input c.code (main_scan c).0 (main_scan c).1 (not down)
          (if is_numpad_vk c.code then virtual_key else a.key_mode) tag

  -- The timeline of an action, in the order in which its events are sent.
  unfoldable pub action_events : InputAction → ℕ → List (ℕ × Input)
  action_events a tag =
      let c = a.chord in
      let main_vk : ℕ = if is_keyboard c then c.code else 0 in
      let (presses, last) =
        press_events (is_wheel c) (us_to_ticks a.down_time_us) (us_to_ticks a.repeat_gap_us)
          (press a tag true) (press a tag false) (clamp_repeat a.repeat) 0 in
      at_time 0 (append_mods c.mods main_vk false a.key_mode tag)
      ++ (presses ++ at_time last (append_mods c.mods main_vk true a.key_mode tag))

-- Put an event into the last step if that has its time and room for it, else into a new one.
unfoldable pub push_event : List ActionStep → ℕ × Input → List ActionStep
push_event [] (t, i) = record { offset_ticks = t; inputs = i ∷ [] } ∷ []
push_event (s ∷ []) (t, i) =
    if not (s.offset_ticks == t) || leb k_max_step_inputs (length s.inputs)
    then s ∷ record { offset_ticks = t; inputs = i ∷ [] } ∷ []
    else record s { inputs = s.inputs ++ i ∷ [] } ∷ []
push_event (s ∷ s' ∷ rest) e = s ∷ push_event (s' ∷ rest) e

unfoldable pub group_events : List ActionStep → List (ℕ × Input) → List ActionStep
unfolding push_event
group_events steps [] = steps
group_events steps (e ∷ es) = group_events (push_event steps e) es

unfoldable pub last_offset : List ActionStep → ℕ
last_offset [] = 0
last_offset (s ∷ []) = s.offset_ticks
last_offset (s ∷ s' ∷ rest) = last_offset (s' ∷ rest)

unfoldable pub count_inputs : List ActionStep → ℕ
count_inputs [] = 0
count_inputs (s ∷ rest) = length s.inputs + count_inputs rest

unfoldable pub flatten_steps : List ActionStep → List Input
flatten_steps [] = []
flatten_steps (s ∷ rest) = s.inputs ++ flatten_steps rest

unfoldable pub compile_action : (ℕ → ℕ) → (ℕ → ℕ) → InputAction → ℕ → ActionProgram
compile_action map_vk us_to_ticks a tag =
    let steps = group_events [] (action_events map_vk us_to_ticks a tag) in
    if not (valid a.chord)
    then record {
      steps = [];
      span_ticks = 0;
      inputs_per_action = 0;
      flat = [];
      error = some no_action_assigned;
    }
    else record {
      steps = steps;
      span_ticks = last_offset steps;
      inputs_per_action = count_inputs steps;
      flat = flatten_steps steps;
      error = none;
    }
