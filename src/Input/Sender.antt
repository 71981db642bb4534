-- ===== src/Input/Sender.antt =====
-- src/input/InputSender.h and InputSender.cpp. How many events `SendInput` accepts, and the error
-- of a call that rejects some, are arguments of `send` and `release_all`.
use infinity_clicker.Base.{
  ℕ, ◌+◌, ◌-◌, ◌/◌, ◌%◌, ◌^◌, Bool, true, false, ◌&&◌, ◌||◌, not, if◌then◌else◌, ◌==◌, List, [],
  ◌∷◌, Option, none, some, take, length,
}
use infinity_clicker.Input.Action.{
  Input, mouse_input, key_input, MouseFlag, no_flag, left_down, left_up, right_down, right_up,
  middle_down, middle_up, x_down, x_up, wheel, hwheel,
}
use infinity_clicker.Input.HeldState.{HeldShared, up_events}
pub mod Tracking
pub mod Kept
pub mod Mirror
pub mod Guardian
pub mod Releases
pub mod Empty
pub mod Taken

abbrev pub u64 : ℕ → ℕ
u64 n = n % 2 ^ 64

pub record Sender : Type 0 where
  pub calls : ℕ
  pub requested : ℕ
  pub accepted : ℕ
  pub failed_calls : ℕ
  pub last_error : ℕ
  pub shared : Option HeldShared
  pub held_mouse : ℕ → Bool
  pub held_keys : ℕ → Bool
  pub key_meta : ℕ → ℕ
  pub held_key_count : ℕ
  pub dirty : Bool

unfoldable pub init : Option HeldShared → Sender
init shared = record {
  calls = 0;
  requested = 0;
  accepted = 0;
  failed_calls = 0;
  last_error = 0;
  shared = shared;
  held_mouse = λ b. false;
  held_keys = λ vk. false;
  key_meta = λ vk. 0;
  held_key_count = 0;
  dirty = false;
}

abbrev pub set_at {ℓ} : {A : Type ℓ} → (ℕ → A) → ℕ → A → ℕ → A
set_at f i v j = if j == i then v else f j

-- The lambda `set` of `track`.
unfoldable pub set_button : ℕ → Bool → Sender → Sender
set_button bit down s = record s {
  held_mouse = set_at s.held_mouse bit down;
  dirty = s.dirty || not (if s.held_mouse bit then down else not down);
}

set_x : ℕ → Bool → Sender → Sender
unfolding set_button
set_x mouse_data down s =
    let s' = if mouse_data % 2 == 1 then set_button 3 down s else s in
    if mouse_data / 2 % 2 == 1 then set_button 4 down s' else s'

track_mouse : MouseFlag → ℕ → Sender → Sender
unfolding set_x
track_mouse left_down d s = set_button 0 true s
track_mouse left_up d s = set_button 0 false s
track_mouse right_down d s = set_button 1 true s
track_mouse right_up d s = set_button 1 false s
track_mouse middle_down d s = set_button 2 true s
track_mouse middle_up d s = set_button 2 false s
track_mouse x_down d s = set_x d true s
track_mouse x_up d s = set_x d false s
track_mouse _ d s = s

-- scan | 0x100 (extended) | 0x200 (VK mode)
abbrev pub meta_of : ℕ → Bool → Bool → ℕ
meta_of scan extended scancode =
    scan % 256 + (if extended then 256 else 0) + (if scancode then 0 else 512)

track_key : ℕ → ℕ → Bool → Bool → Bool → Sender → Sender
track_key vk scan up extended scancode s =
    if vk == 0
    then s
    else if not up && not (s.held_keys vk)
    then record s {
      held_keys = set_at s.held_keys vk true;
      held_key_count = s.held_key_count + 1;
      key_meta = set_at s.key_meta vk (meta_of scan extended scancode);
      dirty = true;
    }
    else if up && s.held_keys vk
    then record s {
      held_keys = set_at s.held_keys vk false;
      held_key_count = s.held_key_count - 1;
      dirty = true;
    }
    else s

unfoldable pub track : Sender → Input → Sender
unfolding track_mouse track_key
track s (mouse_input flag d tag) = track_mouse flag d s
track s (key_input vk scan up extended scancode tag) =
    track_key (vk % 256) scan up extended scancode s

unfoldable pub track_all : Sender → List Input → Sender
track_all s [] = s
track_all s (i ∷ is) = track_all (track s i) is

publish_to : Sender → HeldShared → HeldShared
publish_to s h = record h {
  key_scan = λ vk. if s.held_keys vk then s.key_meta vk else h.key_scan vk;
  key_bits = s.held_keys;
  mouse_mask = s.held_mouse;
}

abbrev publish_shared : Sender → Option HeldShared → Option HeldShared
publish_shared s none = none
publish_shared s (some h) = some (publish_to s h)

unfoldable pub publish : Sender → Sender
unfolding publish_to
publish s = record s { dirty = false; shared = publish_shared s s.shared }

-- One call of `SendInput` that accepts the first `ok` events.
unfoldable pub send : ℕ → ℕ → List Input → Sender → Sender
send ok err is s =
    let n = length is in
    let counted = record s {
      calls = u64 (s.calls + 1);
      requested = u64 (s.requested + n);
      accepted = u64 (s.accepted + ok);
      failed_calls = if ok == n then s.failed_calls else u64 (s.failed_calls + 1);
      last_error = if ok == n then s.last_error else err;
    } in
    let tracked = track_all counted (take ok is) in
    if n == 0 then s else if tracked.dirty then publish tracked else tracked

-- `kTagInfClick`
abbrev pub tag_inf_click : ℕ
tag_inf_click = 0x494E4643

unfoldable pub release_inputs : Sender → List Input
release_inputs s = up_events s.held_keys s.key_meta s.held_mouse tag_inf_click

-- The new state and the number of events accepted, `retried` by the second call.
unfoldable pub release_all : ℕ → ℕ → ℕ → Sender → Sender × ℕ
release_all ok err retried s =
    let is = release_inputs s in
    let n = length is in
    let sent = send ok err is s in
    if n == 0
    then (s, 0)
    else if ok == n
    then (sent, ok)
    else (publish (track_all sent is), ok + retried)

abbrev any_button : (ℕ → Bool) → Bool
any_button m = m 0 || m 1 || m 2 || m 3 || m 4

unfoldable pub any_held : Sender → Bool
any_held s = any_button s.held_mouse || not (s.held_key_count == 0)
