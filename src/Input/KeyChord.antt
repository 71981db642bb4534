-- ===== src/Input/KeyChord.antt =====
-- src/input/KeyChord.h and KeyChord.cpp: chords and the helpers on virtual-key codes.
use Prim.Native.Nat.{bit_and}
use infinity_clicker.Base.{
  ℕ, ◌/◌, ◌%◌, Bool, true, false, ◌&&◌, ◌||◌, not, if◌then◌else◌, leb, ◌==◌, List, [], ◌∷◌,
  contains,
}
use infinity_clicker.Input.Vk

pub data Device : Type 0 where
  no_device keyboard mouse : Device

pub data MouseButton : Type 0 where
  left right middle x1 x2 wheel_up wheel_down wheel_left wheel_right count : MouseButton

-- `int(b)`
unfoldable pub button_code : MouseButton → ℕ
button_code left = 0
button_code right = 1
button_code middle = 2
button_code x1 = 3
button_code x2 = 4
button_code wheel_up = 5
button_code wheel_down = 6
button_code wheel_left = 7
button_code wheel_right = 8
button_code count = 9

button_from : List MouseButton → ℕ → MouseButton
button_from [] n = count
button_from (b ∷ bs) n = if n == button_code b then b else button_from bs n

-- `MouseButton(code)`; a code past the last button behaves like `Count` in every `switch`.
unfoldable pub to_button : ℕ → MouseButton
unfolding button_from button_code
to_button code =
    button_from
      (left ∷ right ∷ middle ∷ x1 ∷ x2 ∷ wheel_up ∷ wheel_down ∷ wheel_left ∷ wheel_right ∷ [])
      (code % 256)

abbrev pub mod_ctrl : ℕ
mod_ctrl = 1

abbrev pub mod_shift : ℕ
mod_shift = 2

abbrev pub mod_alt : ℕ
mod_alt = 4

abbrev pub mod_win : ℕ
mod_win = 8

-- `mods & bit`, as a condition
abbrev pub has_bits : ℕ → ℕ → Bool
has_bits mods bit = not (bit_and mods bit == 0)

-- `(have & need) == need`
abbrev pub covers : ℕ → ℕ → Bool
covers have need = bit_and have need == need

pub record KeyChord : Type 0 where
  pub device : Device
  pub code : ℕ
  pub scan : ℕ
  pub extended : Bool
  pub mods : ℕ

abbrev pub no_chord : KeyChord
no_chord = record { device = no_device; code = 0; scan = 0; extended = false; mods = 0 }

abbrev pub is_mouse_device : Device → Bool
is_mouse_device mouse = true
is_mouse_device _ = false

abbrev pub is_keyboard_device : Device → Bool
is_keyboard_device keyboard = true
is_keyboard_device _ = false

abbrev pub is_mouse : KeyChord → Bool
is_mouse c = is_mouse_device c.device

abbrev pub is_keyboard : KeyChord → Bool
is_keyboard c = is_keyboard_device c.device

abbrev pub valid : KeyChord → Bool
valid c = is_mouse c || is_keyboard c

abbrev pub is_wheel : KeyChord → Bool
is_wheel c = is_mouse c && (leb 5 c.code && leb c.code 8)

unfoldable pub mod_bit_for_vk : ℕ → ℕ
mod_bit_for_vk vk =
    if contains vk (Vk.control ∷ Vk.lcontrol ∷ Vk.rcontrol ∷ [])
    then mod_ctrl
    else if contains vk (Vk.shift ∷ Vk.lshift ∷ Vk.rshift ∷ [])
    then mod_shift
    else if contains vk (Vk.menu ∷ Vk.lmenu ∷ Vk.rmenu ∷ [])
    then mod_alt
    else if contains vk (Vk.lwin ∷ Vk.rwin ∷ [])
    then mod_win
    else 0

unfoldable pub is_modifier_vk : ℕ → Bool
unfolding mod_bit_for_vk
is_modifier_vk vk = not (mod_bit_for_vk vk == 0)

-- The keys that carry the E0 prefix by default, in the order of the source's `case` labels.
unfoldable pub vk_default_extended : ℕ → Bool
vk_default_extended vk = contains vk (
    Vk.rcontrol ∷ Vk.rmenu ∷ Vk.lwin ∷ Vk.rwin ∷ 0x5D ∷ 0x2D ∷ 0x2E ∷ 0x24 ∷ 0x23 ∷ 0x21 ∷ 0x22
    ∷ 0x26 ∷ 0x28 ∷ 0x25 ∷ 0x27 ∷ 0x6F ∷ 0x90 ∷ 0x2C ∷ 0xAD ∷ 0xAE ∷ 0xAF ∷ 0xB0 ∷ 0xB1 ∷ 0xB2
    ∷ 0xB3 ∷ 0xA6 ∷ 0xA7 ∷ [])

left_hand : ℕ → ℕ
left_hand vk =
    if vk == Vk.control
    then Vk.lcontrol
    else if vk == Vk.shift
    then Vk.lshift
    else if vk == Vk.menu
    then Vk.lmenu
    else vk

-- The scan code of a key and whether it is extended. `map_vk` is `MapVirtualKeyW` for the active
-- keyboard layout, from a virtual key to its scan code with prefix.
unfoldable pub vk_to_scan : (ℕ → ℕ) → ℕ → ℕ × Bool
unfolding left_hand vk_default_extended
vk_to_scan map_vk vk =
    let sc = map_vk (left_hand vk) in
    let prefix = sc / 256 % 256 in
    (if prefix == 0xE1 then 0 else sc % 256, prefix == 0xE0 || vk_default_extended (left_hand vk))

abbrev pub bool_eq : Bool → Bool → Bool
bool_eq true b = b
bool_eq false b = not b

same_on : Device → Device → KeyChord → KeyChord → Bool
same_on mouse mouse c o = c.code == o.code
same_on keyboard keyboard c o =
    c.code == o.code && (not (c.code == Vk.return) || bool_eq c.extended o.extended)
same_on no_device no_device c o = true
same_on _ _ c o = false

-- The same physical key or button, whatever the modifiers.
unfoldable pub same_key : KeyChord → KeyChord → Bool
unfolding same_on
same_key c o = same_on c.device o.device c o

device_eq : Device → Device → Bool
device_eq mouse mouse = true
device_eq keyboard keyboard = true
device_eq no_device no_device = true
device_eq _ _ = false

-- `operator==`
unfoldable pub chord_eq : KeyChord → KeyChord → Bool
unfolding device_eq
chord_eq c o =
    device_eq c.device o.device
    && c.code == o.code
    && c.mods == o.mods
    && (not (is_keyboard c) || bool_eq c.extended o.extended)

unfoldable pub chord_mouse : MouseButton → ℕ → KeyChord
chord_mouse b mods = record {
  device = mouse;
  code = button_code b;
  scan = 0;
  extended = false;
  mods = mods;
}

unfoldable pub chord_key : (ℕ → ℕ) → ℕ → ℕ → KeyChord
unfolding vk_to_scan
chord_key map_vk vk mods =
    let (scan, ext) = vk_to_scan map_vk vk in
    record { device = keyboard; code = vk; scan = scan; extended = ext; mods = mods }
