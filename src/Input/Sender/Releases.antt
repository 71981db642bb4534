-- ===== src/Input/Sender/Releases.antt =====
-- The events by which `releaseAll` of src/input/InputSender.cpp releases what is held.
use infinity_clicker.Base.{
  ℕ, zero, suc, ◌+◌, ◌≡◌, ◌≤◌, ◌<◌, refl, ap, ◌∙◌, arith, Bool, true, false, ◌==◌, Bool-cases,
  ==_iff, inl, inr, List, [], ◌∷◌, ◌++◌, map, take, length, All,
}
use infinity_clicker.Input.KeyChord.{MouseButton, button_code, left}
use infinity_clicker.Input.Action.{Input, make_key_input, make_mouse_input}
use infinity_clicker.Input.HeldState.{
  set_bits, set_buttons, key_up_of, button_up_of, up_events, five_buttons,
}
use infinity_clicker.Input.Sender.{Sender, release_inputs, tag_inf_click}
use infinity_clicker.Input.Sender.Tracking.{key_edge, button_edge, after_all, after_all-append}

pub take-whole : (n : ℕ) (is : List Input) → length is ≤ n → take n is ≡ is
take-whole zero [] h = refl
take-whole zero (i ∷ is) h = absurd (omega arith)
take-whole (suc n) [] h = refl
take-whole (suc n) (i ∷ is) h = ap (λ js. i ∷ js) (take-whole n is (omega arith))

-- The event presses nothing.
abbrev pub Lifts : (Input → Bool → Bool) → Input → Type 0
Lifts edge i = edge i false ≡ false

pub after_all-take :
    (edge : Input → Bool → Bool) (n : ℕ) (is : List Input)
    → All (Lifts edge) is
    → after_all edge (take n is) false ≡ false
after_all-take edge zero is a = refl
after_all-take edge (suc n) [] a = refl
after_all-take edge (suc n) (i ∷ is) a =
    ap (after_all edge (take n is)) a.0 ∙ after_all-take edge n is a.1

pub after_all-Lifts :
    (edge : Input → Bool → Bool) (is : List Input)
    → All (Lifts edge) is
    → after_all edge is false ≡ false
after_all-Lifts edge [] a = refl
after_all-Lifts edge (i ∷ is) a = rw a.0 (after_all-Lifts edge is a.1)

All-append_lists :
    (edge : Input → Bool → Bool) (is js : List Input)
    → All (Lifts edge) is
    → All (Lifts edge) js
    → All (Lifts edge) (is ++ js)
All-append_lists edge [] js a b = b
All-append_lists edge (i ∷ is) js a b = (a.0, All-append_lists edge is js a.1 b)

key_up-Lifts : (vk : ℕ) (meta : ℕ → ℕ) (tag k : ℕ) → Lifts (key_edge vk) (key_up_of meta tag k)
unfolding key_up_of make_key_input
key_up-Lifts vk meta tag k = ground arith

key_ups-lift :
    (vk : ℕ) (meta : ℕ → ℕ) (tag : ℕ) (ks : List ℕ)
    → All (Lifts (key_edge vk)) (map (key_up_of meta tag) ks)
key_ups-lift vk meta tag [] = _
key_ups-lift vk meta tag (k ∷ ks) = (key_up-Lifts vk meta tag k, key_ups-lift vk meta tag ks)

button_ups-key :
    (vk tag : ℕ) (bs : List MouseButton) (held : Bool)
    → after_all (key_edge vk) (map (button_up_of tag) bs) held ≡ held
unfolding button_up_of make_mouse_input
button_ups-key vk tag [] held = refl
button_ups-key vk tag (left ∷ bs) held = button_ups-key vk tag bs held
button_ups-key vk tag (_ ∷ bs) held = button_ups-key vk tag bs held

button_ups-lift_key :
    (vk tag : ℕ) (bs : List MouseButton) → All (Lifts (key_edge vk)) (map (button_up_of tag) bs)
unfolding button_up_of make_mouse_input
button_ups-lift_key vk tag [] = _
button_ups-lift_key vk tag (left ∷ bs) = (refl, button_ups-lift_key vk tag bs)
button_ups-lift_key vk tag (_ ∷ bs) = (refl, button_ups-lift_key vk tag bs)

key_up-releases :
    (vk : ℕ) (meta : ℕ → ℕ) (tag k : ℕ) (held : Bool)
    → k ≡ vk
    → 0 < vk
    → vk < 256
    → key_edge vk (key_up_of meta tag k) held ≡ false
unfolding key_up_of make_key_input
key_up-releases vk meta tag k held e p b = ground arith

-- The releases of the keys from `i` on release a held one of them.
key_ups-release :
    (bits : ℕ → Bool) (meta : ℕ → ℕ) (tag n i vk : ℕ) (held : Bool)
    → i ≤ vk
    → vk < i + n
    → 0 < vk
    → vk < 256
    → bits vk ≡ true
    → after_all (key_edge vk) (map (key_up_of meta tag) (set_bits bits n i)) held ≡ false
unfolding set_bits
key_ups-release bits meta tag zero i vk held l h p b e = absurd (omega arith)
key_ups-release bits meta tag (suc n) i vk held l h p b e = elim (Bool-cases (i == vk)) [
  | inl q ↦
      (let same = (==_iff i vk).0 q in
        let lifted = key_up-releases vk meta tag i held same p b in
        rw (ap bits same ∙ e) (
          ap (after_all (key_edge vk) (map (key_up_of meta tag) (set_bits bits n (i + 1)))) lifted
          ∙ after_all-Lifts (key_edge vk) _ (key_ups-lift vk meta tag (set_bits bits n (i + 1)))))
  | inr q ↦
      (let later : i + 1 ≤ vk = ground arith in
        let rest =
          λ (x : Bool). key_ups-release bits meta tag n (i + 1) vk x later (omega arith) p b e in
        elim (Bool-cases (bits i)) [
          | inl t ↦ rw t (rest (key_edge vk (key_up_of meta tag i) held))
          | inr t ↦ rw t (rest held)
        ])
]

-- What `releaseAll` sends, before the buffer of 64 cuts it off.
abbrev pub releases : Sender → List Input
releases s =
    map (key_up_of s.key_meta tag_inf_click) (set_bits s.held_keys 256 0)
    ++ map (button_up_of tag_inf_click) (set_buttons s.held_mouse five_buttons)

pub release_inputs-releases :
    (s : Sender) → length (releases s) ≤ 64 → release_inputs s ≡ releases s
unfolding release_inputs up_events
release_inputs-releases s h = take-whole 64 (releases s) h

pub releases-key :
    (s : Sender) (vk : ℕ) (held : Bool)
    → 0 < vk
    → vk < 256
    → s.held_keys vk ≡ true
    → after_all (key_edge vk) (releases s) held ≡ false
releases-key s vk held p b e =
    after_all-append (key_edge vk)
      (map (key_up_of s.key_meta tag_inf_click) (set_bits s.held_keys 256 0)) _ held
    ∙ button_ups-key vk tag_inf_click (set_buttons s.held_mouse five_buttons) _
    ∙ key_ups-release s.held_keys s.key_meta tag_inf_click 256 0 vk held (omega arith) (omega arith)
        p b e

pub releases-lift_key : (s : Sender) (vk : ℕ) → All (Lifts (key_edge vk)) (releases s)
releases-lift_key s vk =
    All-append_lists (key_edge vk) _ _
      (key_ups-lift vk s.key_meta tag_inf_click (set_bits s.held_keys 256 0))
      (button_ups-lift_key vk tag_inf_click (set_buttons s.held_mouse five_buttons))

-- Buttons.
key_ups-button :
    (b : ℕ) (meta : ℕ → ℕ) (tag : ℕ) (ks : List ℕ) (held : Bool)
    → after_all (button_edge b) (map (key_up_of meta tag) ks) held ≡ held
unfolding key_up_of make_key_input
key_ups-button b meta tag [] held = refl
key_ups-button b meta tag (k ∷ ks) held = key_ups-button b meta tag ks held

key_ups-lift_button :
    (b : ℕ) (meta : ℕ → ℕ) (tag : ℕ) (ks : List ℕ)
    → All (Lifts (button_edge b)) (map (key_up_of meta tag) ks)
unfolding key_up_of make_key_input
key_ups-lift_button b meta tag [] = _
key_ups-lift_button b meta tag (k ∷ ks) = (refl, key_ups-lift_button b meta tag ks)

button_up-Lifts : (b tag : ℕ) (m : MouseButton) → Lifts (button_edge b) (button_up_of tag m)
unfolding button_up_of make_mouse_input
button_up-Lifts b tag left = ground arith
button_up-Lifts b tag _ = ground arith

button_ups-lift :
    (b tag : ℕ) (bs : List MouseButton) → All (Lifts (button_edge b)) (map (button_up_of tag) bs)
button_ups-lift b tag [] = _
button_ups-lift b tag (m ∷ bs) = (button_up-Lifts b tag m, button_ups-lift b tag bs)

five_ups-release :
    (mask : ℕ → Bool) (tag b : ℕ) (held : Bool)
    → b < 5
    → mask b ≡ true
    → after_all (button_edge b) (map (button_up_of tag) (set_buttons mask five_buttons)) held
      ≡ false
unfolding set_buttons button_up_of make_mouse_input button_code
five_ups-release mask tag zero held h e = ground arith
five_ups-release mask tag (suc zero) held h e = ground arith
five_ups-release mask tag (suc (suc zero)) held h e = ground arith
five_ups-release mask tag (suc (suc (suc zero))) held h e = ground arith
five_ups-release mask tag (suc (suc (suc (suc zero)))) held h e = ground arith
five_ups-release mask tag (suc (suc (suc (suc (suc b))))) held h e = absurd (omega arith)

pub releases-button :
    (s : Sender) (b : ℕ) (held : Bool)
    → b < 5
    → s.held_mouse b ≡ true
    → after_all (button_edge b) (releases s) held ≡ false
releases-button s b held h e =
    after_all-append (button_edge b)
      (map (key_up_of s.key_meta tag_inf_click) (set_bits s.held_keys 256 0)) _ held
    ∙ five_ups-release s.held_mouse tag_inf_click b _ h e

pub releases-lift_button : (s : Sender) (b : ℕ) → All (Lifts (button_edge b)) (releases s)
releases-lift_button s b =
    All-append_lists (button_edge b) _ _
      (key_ups-lift_button b s.key_meta tag_inf_click (set_bits s.held_keys 256 0))
      (button_ups-lift b tag_inf_click (set_buttons s.held_mouse five_buttons))
