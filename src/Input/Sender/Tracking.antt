-- ===== src/Input/Sender/Tracking.antt =====
-- What `track` of src/input/InputSender.cpp leaves held: the last event of each key and button.
use infinity_clicker.Base.{
  ℕ, ◌≡◌, refl, ap, ◌∙◌, Bool, true, false, ◌&&◌, ◌||◌, not, if◌then◌else◌, ◌==◌, ◌%◌, ◌/◌, arith,
  List, [], ◌∷◌, ◌++◌,
}
use infinity_clicker.Input.Action.{
  Input, mouse_input, key_input, MouseFlag, left_down, left_up, right_down, right_up, middle_down,
  middle_up, x_down, x_up,
}
use infinity_clicker.Input.Sender.{Sender, track, track_all}

-- The state of key `vk` after an event, from its state before.
abbrev pub key_edge : ℕ → Input → Bool → Bool
key_edge vk (mouse_input flag d tag) held = held
key_edge vk (key_input v scan up extended scancode tag) held =
    if not (v % 256 == 0) && vk == v % 256 then not up else held

abbrev x_edge : ℕ → ℕ → Bool → Bool → Bool
x_edge b d down held = if (b == 3 && d % 2 == 1) || (b == 4 && d / 2 % 2 == 1) then down else held

abbrev flag_edge : ℕ → MouseFlag → ℕ → Bool → Bool
flag_edge b left_down d held = if b == 0 then true else held
flag_edge b left_up d held = if b == 0 then false else held
flag_edge b right_down d held = if b == 1 then true else held
flag_edge b right_up d held = if b == 1 then false else held
flag_edge b middle_down d held = if b == 2 then true else held
flag_edge b middle_up d held = if b == 2 then false else held
flag_edge b x_down d held = x_edge b d true held
flag_edge b x_up d held = x_edge b d false held
flag_edge b _ d held = held

-- The state of mouse button `b` after an event.
abbrev pub button_edge : ℕ → Input → Bool → Bool
button_edge b (mouse_input flag d tag) held = flag_edge b flag d held
button_edge b (key_input v scan up extended scancode tag) held = held

abbrev pub after_all : (Input → Bool → Bool) → List Input → Bool → Bool
after_all edge [] held = held
after_all edge (i ∷ is) held = after_all edge is (edge i held)

pub after_all-append :
    (edge : Input → Bool → Bool) (is js : List Input) (held : Bool)
    → after_all edge (is ++ js) held ≡ after_all edge js (after_all edge is held)
after_all-append edge [] js held = refl
after_all-append edge (i ∷ is) js held = after_all-append edge is js (edge i held)

pub track-key_edge :
    (s : Sender) (i : Input) (vk : ℕ) → (track s i).held_keys vk ≡ key_edge vk i (s.held_keys vk)
unfolding track
track-key_edge s (mouse_input left_down d tag) vk = refl
track-key_edge s (mouse_input x_down d tag) vk = ground arith
track-key_edge s (mouse_input x_up d tag) vk = ground arith
track-key_edge s (mouse_input _ d tag) vk = refl
track-key_edge s (key_input v scan up extended scancode tag) vk = ground arith

pub track-button_edge :
    (s : Sender) (i : Input) (b : ℕ) → (track s i).held_mouse b ≡ button_edge b i (s.held_mouse b)
unfolding track
track-button_edge s (mouse_input left_down d tag) b = ground arith
track-button_edge s (mouse_input x_down d tag) b = ground arith
track-button_edge s (mouse_input x_up d tag) b = ground arith
track-button_edge s (mouse_input _ d tag) b = ground arith
track-button_edge s (key_input v scan up extended scancode tag) b = ground arith

-- A key is held after a sequence of events as its last event left it.
pub track_all-key :
    (is : List Input) (s : Sender) (vk : ℕ)
    → (track_all s is).held_keys vk ≡ after_all (key_edge vk) is (s.held_keys vk)
unfolding track_all
track_all-key [] s vk = refl
track_all-key (i ∷ is) s vk =
    track_all-key is (track s i) vk ∙ ap (after_all (key_edge vk) is) (track-key_edge s i vk)

pub track_all-button :
    (is : List Input) (s : Sender) (b : ℕ)
    → (track_all s is).held_mouse b ≡ after_all (button_edge b) is (s.held_mouse b)
unfolding track_all
track_all-button [] s b = refl
track_all-button (i ∷ is) s b =
    track_all-button is (track s i) b ∙ ap (after_all (button_edge b) is) (track-button_edge s i b)
