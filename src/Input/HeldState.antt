-- ===== src/Input/HeldState.antt =====
-- src/input/HeldState.h and HeldState.cpp: the record of held keys that the guardian process reads.
-- A bit set of 32-bit words is a function of the bit's number: `key_bits vk` is bit `vk & 31` of
-- word `vk >> 5`.
use infinity_clicker.Base.{
  ℕ, zero, suc, ◌+◌, ◌/◌, ◌%◌, Bool, true, false, if◌then◌else◌, ◌==◌, List, [], ◌∷◌, ◌++◌, map,
  take,
}
use infinity_clicker.Input.KeyChord.{MouseButton, left, right, middle, x1, x2, button_code}
use infinity_clicker.Input.Action.{Input, scan_code, virtual_key, make_key_input, make_mouse_input}

pub record HeldShared : Type 0 where
  pub magic : ℕ
  pub version : ℕ
  pub mouse_mask : ℕ → Bool
  pub key_bits : ℕ → Bool
  pub key_scan : ℕ → ℕ
  pub clean_exit : ℕ
  pub owner_pid : ℕ

abbrev pub k_magic : ℕ
k_magic = 0x44484C54

-- What `openHeldShared` writes into a section that it creates for `pid`.
unfoldable pub fresh_shared : ℕ → HeldShared
fresh_shared pid = record {
  magic = k_magic;
  version = 1;
  mouse_mask = λ b. false;
  key_bits = λ vk. false;
  key_scan = λ vk. 0;
  clean_exit = 0;
  owner_pid = pid;
}

-- The set bits among the `n` from `i` on, in order.
unfoldable pub set_bits : (ℕ → Bool) → ℕ → ℕ → List ℕ
set_bits bits zero i = []
set_bits bits (suc n) i = (if bits i then i ∷ [] else []) ++ set_bits bits n (i + 1)

-- The `Left` to `X2` buttons whose bit is set.
unfoldable pub set_buttons : (ℕ → Bool) → List MouseButton → List MouseButton
set_buttons bits [] = []
set_buttons bits (b ∷ bs) = (if bits (button_code b) then b ∷ [] else []) ++ set_buttons bits bs

abbrev pub five_buttons : List MouseButton
five_buttons = left ∷ right ∷ middle ∷ x1 ∷ x2 ∷ []

-- The UP event of a key from its metadata: scan | 0x100 (extended) | 0x200 (VK mode).
unfoldable pub key_up_of : (ℕ → ℕ) → ℕ → ℕ → Input
key_up_of meta tag vk =
    make_key_input vk (meta vk % 256) (meta vk / 256 % 2 == 1) true
      (if meta vk / 512 % 2 == 1 then virtual_key else scan_code) tag

unfoldable pub button_up_of : ℕ → MouseButton → Input
button_up_of tag b = make_mouse_input b false 0 tag

-- The UP events for all that is held, keys first, as far as the buffer of 64 goes.
unfoldable pub up_events : (ℕ → Bool) → (ℕ → ℕ) → (ℕ → Bool) → ℕ → List Input
unfolding set_bits set_buttons
up_events keys meta buttons tag = take 64 (
    map (key_up_of meta tag) (set_bits keys 256 0)
    ++ map (button_up_of tag) (set_buttons buttons five_buttons))

-- The events that are sent, and the record with its bits cleared.
unfoldable pub release_held_from : HeldShared → ℕ → List Input × HeldShared
release_held_from h tag =
    if h.magic == k_magic
    then (
      up_events h.key_bits h.key_scan h.mouse_mask tag,
      record h { mouse_mask = λ b. false; key_bits = λ vk. false },
    )
    else ([], h)
