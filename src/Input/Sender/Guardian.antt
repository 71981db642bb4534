-- ===== src/Input/Sender/Guardian.antt =====
-- What the guardian process would release (`releaseHeldFrom` of src/input/HeldState.cpp) is what the
-- sender of src/input/InputSender.cpp holds.
use infinity_clicker.Base.{
  ℕ, zero, suc, ◌+◌, ◌≡◌, refl, Bool, true, Bool-cases, inl, inr, List, [], ◌∷◌, map, some,
}
use infinity_clicker.Input.KeyChord.{MouseButton, button_code}
use infinity_clicker.Input.HeldState.{
  HeldShared, fresh_shared, set_bits, set_buttons, key_up_of, up_events, five_buttons,
  release_held_from,
}
use infinity_clicker.Input.Sender.{Sender, init, release_inputs, tag_inf_click}
use infinity_clicker.Input.Sender.Mirror.{
  Call, do_calls, Mirrors, do_calls-IsMirrored, init-IsMirrored,
}

key_up_same :
    (meta1 meta2 : ℕ → ℕ) (tag vk : ℕ)
    → meta1 vk ≡ meta2 vk
    → key_up_of meta1 tag vk ≡ key_up_of meta2 tag vk
unfolding key_up_of
key_up_same meta1 meta2 tag vk e = rw e refl

key_ups_same :
    (bits1 bits2 : ℕ → Bool) (meta1 meta2 : ℕ → ℕ) (tag n i : ℕ)
    → ((vk : ℕ) → bits1 vk ≡ bits2 vk)
    → ((vk : ℕ) → bits2 vk ≡ true → meta1 vk ≡ meta2 vk)
    → map (key_up_of meta1 tag) (set_bits bits1 n i)
      ≡ map (key_up_of meta2 tag) (set_bits bits2 n i)
unfolding set_bits
key_ups_same bits1 bits2 meta1 meta2 tag zero i b m = refl
key_ups_same bits1 bits2 meta1 meta2 tag (suc n) i b m =
    let rest = key_ups_same bits1 bits2 meta1 meta2 tag n (i + 1) b m in
    elim (Bool-cases (bits2 i)) [
      | inl e ↦ rw (b i, e) (cc (key_up_same meta1 meta2 tag i (m i e), rest))
      | inr e ↦ rw (b i, e) rest
    ]

buttons_same :
    (mask1 mask2 : ℕ → Bool) (bs : List MouseButton)
    → ((b : ℕ) → mask1 b ≡ mask2 b)
    → set_buttons mask1 bs ≡ set_buttons mask2 bs
unfolding set_buttons
buttons_same mask1 mask2 [] e = refl
buttons_same mask1 mask2 (b ∷ bs) e = rw (e (button_code b), buttons_same mask1 mask2 bs e) refl

releases_same :
    (h : HeldShared) (s : Sender) (tag : ℕ)
    → Mirrors h s
    → up_events h.key_bits h.key_scan h.mouse_mask tag
      ≡ up_events s.held_keys s.key_meta s.held_mouse tag
unfolding up_events
releases_same h s tag m =
    rw
      (
        key_ups_same h.key_bits s.held_keys h.key_scan s.key_meta tag 256 0 m.same_keys m.same_meta,
        buttons_same h.mouse_mask s.held_mouse five_buttons m.same_buttons,
      )
      refl

-- After any calls of the sender that owns a fresh shared record, whatever part of the events Windows
-- takes, the guardian that finds the record sends, for all that is held, exactly the events by which
-- `releaseAll` would release it.
pub release_held_from-release_inputs :
    (pid : ℕ) (cs : List Call)
    → let s = do_calls cs (init (some (fresh_shared pid))) in
      (h : HeldShared) × (s.shared ≡ some h)
      × ((release_held_from h tag_inf_click).0 ≡ release_inputs s)
unfolding release_held_from release_inputs
release_held_from-release_inputs pid cs =
    let s = do_calls cs (init (some (fresh_shared pid))) in
    let m = do_calls-IsMirrored cs _ (init-IsMirrored pid) in
    (m.copy, m.copied, rw m.mirrors.marked (releases_same m.copy s tag_inf_click m.mirrors))
