-- ===== src/Input/Sender/Kept.antt =====
-- Tracking in src/input/InputSender.cpp that leaves nothing to publish has changed nothing.
use infinity_clicker.Base.{
  ℕ, ◌/◌, ◌%◌, ◌≡◌, refl, ap, sym, subst, ◌∙◌, arith, Bool, true, false, if◌then◌else◌, ◌==◌, List,
  [], ◌∷◌,
}
use infinity_clicker.Input.Action.{
  Input, MouseFlag, mouse_input, key_input, left_down, left_up, right_down, right_up, middle_down,
  middle_up, x_down, x_up,
}
use infinity_clicker.Input.Sender.{
  Sender, set_button, set_x, track_mouse, track_key, track, track_all,
}

-- Nothing has changed if there is nothing to publish.
pub record IsKept (s t : Sender) : Type 0 where
  pub keys_kept : (vk : ℕ) → t.held_keys vk ≡ s.held_keys vk
  pub buttons_kept : (b : ℕ) → t.held_mouse b ≡ s.held_mouse b
  pub meta_kept : (vk : ℕ) → t.key_meta vk ≡ s.key_meta vk
  pub was_clean : s.dirty ≡ false

track-shared : (s : Sender) (i : Input) → (track s i).shared ≡ s.shared
unfolding track
track-shared s (mouse_input x_down d tag) = ground arith
track-shared s (mouse_input x_up d tag) = ground arith
track-shared s (mouse_input _ d tag) = refl
track-shared s (key_input vk scan up extended scancode tag) = ground arith

pub IsKept-refl : (s : Sender) → s.dirty ≡ false → IsKept s s
IsKept-refl s c = record {
  keys_kept = λ vk. refl;
  buttons_kept = λ b. refl;
  meta_kept = λ vk. refl;
  was_clean = c;
}

IsKept-trans : (s t u : Sender) → IsKept s t → IsKept t u → IsKept s u
IsKept-trans s t u p q = record {
  keys_kept = λ vk. q.keys_kept vk ∙ p.keys_kept vk;
  buttons_kept = λ b. q.buttons_kept b ∙ p.buttons_kept b;
  meta_kept = λ vk. q.meta_kept vk ∙ p.meta_kept vk;
  was_clean = p.was_clean;
}

set_button-IsKept :
    (bit : ℕ) (down : Bool) (s : Sender)
    → (set_button bit down s).dirty ≡ false
    → IsKept s (set_button bit down s)
unfolding set_button
set_button-IsKept bit down s c = record {
  keys_kept = λ vk. refl;
  buttons_kept = λ b. grind arith;
  meta_kept = λ vk. refl;
  was_clean = ground arith;
}

either_IsKept :
    (b : Bool) (bit : ℕ) (down : Bool) (s : Sender)
    → (if b then set_button bit down s else s).dirty ≡ false
    → IsKept s (if b then set_button bit down s else s)
either_IsKept true bit down s c = set_button-IsKept bit down s c
either_IsKept false bit down s c = IsKept-refl s c

set_x-IsKept :
    (d : ℕ) (down : Bool) (s : Sender) → (set_x d down s).dirty ≡ false → IsKept s (set_x d down s)
unfolding set_x
set_x-IsKept d down s c =
    let t = if d % 2 == 1 then set_button 3 down s else s in
    let second = either_IsKept (d / 2 % 2 == 1) 4 down t c in
    IsKept-trans s t _ (either_IsKept (d % 2 == 1) 3 down s second.was_clean) second

track_mouse-IsKept :
    (flag : MouseFlag) (d : ℕ) (s : Sender)
    → (track_mouse flag d s).dirty ≡ false
    → IsKept s (track_mouse flag d s)
unfolding track_mouse
track_mouse-IsKept left_down d s c = set_button-IsKept 0 true s c
track_mouse-IsKept left_up d s c = set_button-IsKept 0 false s c
track_mouse-IsKept right_down d s c = set_button-IsKept 1 true s c
track_mouse-IsKept right_up d s c = set_button-IsKept 1 false s c
track_mouse-IsKept middle_down d s c = set_button-IsKept 2 true s c
track_mouse-IsKept middle_up d s c = set_button-IsKept 2 false s c
track_mouse-IsKept x_down d s c = set_x-IsKept d true s c
track_mouse-IsKept x_up d s c = set_x-IsKept d false s c
track_mouse-IsKept _ d s c = IsKept-refl s c

track_key_same :
    (vk scan : ℕ) (up extended scancode : Bool) (s : Sender)
    → (track_key vk scan up extended scancode s).dirty ≡ false
    → track_key vk scan up extended scancode s ≡ s
unfolding track_key
track_key_same vk scan up extended scancode s c = ground arith

track-IsKept : (s : Sender) (i : Input) → (track s i).dirty ≡ false → IsKept s (track s i)
unfolding track
track-IsKept s (mouse_input flag d tag) c = track_mouse-IsKept flag d s c
track-IsKept s (key_input vk scan up extended scancode tag) c =
    let same = track_key_same (vk % 256) scan up extended scancode s c in
    subst (λ t. IsKept s t) (sym same) (IsKept-refl s (sym (ap (λ t. t.dirty) same) ∙ c))

pub track_all-IsKept :
    (is : List Input) (s : Sender) → (track_all s is).dirty ≡ false → IsKept s (track_all s is)
unfolding track_all
track_all-IsKept [] s c = IsKept-refl s c
track_all-IsKept (i ∷ is) s c =
    let rest = track_all-IsKept is (track s i) c in
    IsKept-trans s (track s i) _ (track-IsKept s i rest.was_clean) rest

pub track_all-shared : (is : List Input) (s : Sender) → (track_all s is).shared ≡ s.shared
unfolding track_all
track_all-shared [] s = refl
track_all-shared (i ∷ is) s = track_all-shared is (track s i) ∙ track-shared s i
