-- ===== src/Input/Sender/Empty.antt =====
-- What the sender of src/input/InputSender.cpp has as held after `releaseAll`.
use infinity_clicker.Base.{
  ℕ, zero, suc, ◌+◌, ◌≡◌, ◌≤◌, ◌<◌, refl, ap, sym, ◌∙◌, arith, Bool, true, false, if◌then◌else◌,
  ◌==◌, List, [], ◌∷◌, take, length, All,
}
use infinity_clicker.Input.Action.{Input}
use infinity_clicker.Input.Sender.{
  Sender, track_all, publish, send, release_inputs, release_all, u64,
}
use infinity_clicker.Input.Sender.Tracking.{
  key_edge, button_edge, after_all, track_all-key, track_all-button,
}
use infinity_clicker.Input.Sender.Releases.{
  take-whole, Lifts, after_all-take, after_all-Lifts, releases, release_inputs-releases,
  releases-key, releases-lift_key, releases-button, releases-lift_button,
}

-- All the releases, after any part of them, release what they are for.
pub released :
    (edge : Input → Bool → Bool) (is : List Input) (held : Bool)
    → (held ≡ true → (h : Bool) → after_all edge is h ≡ false)
    → All (Lifts edge) is
    → (ok : ℕ)
    → (after_all edge is held ≡ false)
      × (after_all edge is (after_all edge (take ok is) held) ≡ false)
released edge is true r a ok = (r refl _, r refl _)
released edge is false r a ok = (
  after_all-Lifts edge is a,
  ap (after_all edge is) (after_all-take edge ok is a) ∙ after_all-Lifts edge is a,
)

-- No key and no button is held for the sender: the keys have the codes 1 to 255, the buttons are five.
pub record IsReleased (s : Sender) : Type 0 where
  pub no_key : (vk : ℕ) → 0 < vk → vk < 256 → s.held_keys vk ≡ false
  pub no_button : (b : ℕ) → b < 5 → s.held_mouse b ≡ false

-- What is seen of a sender changes with the events that are tracked, and with nothing else.
pub record IsView (edge : Input → Bool → Bool) (view : Sender → Bool) : Type 0 where
  pub after_track :
      (is : List Input) (s : Sender) → view (track_all s is) ≡ after_all edge is (view s)
  pub after_publish : (s : Sender) → view (publish s) ≡ view s
  pub after_send :
      (ok err : ℕ) (is : List Input) (s : Sender)
      → view (send ok err is s) ≡ after_all edge (take ok is) (view s)

take_nil : (ok : ℕ) → take {A = Input} ok [] ≡ []
take_nil zero = refl
take_nil (suc ok) = refl

settled_view :
    (view : Sender → Bool) (b : Bool) (t : Sender)
    → view (publish t) ≡ view t
    → view (if b then publish t else t) ≡ view t
settled_view view true t e = e
settled_view view false t e = refl

no_events : (is : List Input) → (length is == 0) ≡ true → is ≡ []
no_events [] h = refl
no_events (i ∷ is) h = absurd (ground arith)

nothing_sent :
    (edge : Input → Bool → Bool) (ok : ℕ) (is : List Input) (held : Bool)
    → (length is == 0) ≡ true
    → held ≡ after_all edge (take ok is) held
nothing_sent edge ok is held z = sym (
    ap (λ js. after_all edge (take ok js) held) (no_events is z)
    ∙ ap (λ js. after_all edge js held) (take_nil ok))

if_view :
    (view : Sender → Bool) (b : Bool) (s t : Sender) (held : Bool)
    → (b ≡ true → view s ≡ held)
    → view t ≡ held
    → view (if b then s else t) ≡ held
if_view view true s t held p q = p refl
if_view view false s t held p q = q

-- The counters that `send` moves.
abbrev counted : ℕ → ℕ → List Input → Sender → Sender
counted ok err is s = record s {
  calls = u64 (s.calls + 1);
  requested = u64 (s.requested + length is);
  accepted = u64 (s.accepted + ok);
  failed_calls = if ok == length is then s.failed_calls else u64 (s.failed_calls + 1);
  last_error = if ok == length is then s.last_error else err;
}

pub key-IsView : (vk : ℕ) → IsView (key_edge vk) (λ s. s.held_keys vk)
unfolding publish send
key-IsView vk = record {
  after_track = λ is s. track_all-key is s vk;
  after_publish = λ s. refl;
  after_send = after;
}
  where
    after :
        (ok err : ℕ) (is : List Input) (s : Sender)
        → (send ok err is s).held_keys vk ≡ after_all (key_edge vk) (take ok is) (s.held_keys vk)
    after ok err is s =
        let t = track_all (counted ok err is s) (take ok is) in
        if_view (λ t. t.held_keys vk) (length is == 0) s (if t.dirty then publish t else t) _
          (nothing_sent (key_edge vk) ok is (s.held_keys vk))
          (settled_view (λ t. t.held_keys vk) t.dirty t refl
            ∙ track_all-key (take ok is) (counted ok err is s) vk)

pub button-IsView : (b : ℕ) → IsView (button_edge b) (λ s. s.held_mouse b)
unfolding publish send
button-IsView b = record {
  after_track = λ is s. track_all-button is s b;
  after_publish = λ s. refl;
  after_send = after;
}
  where
    after :
        (ok err : ℕ) (is : List Input) (s : Sender)
        → (send ok err is s).held_mouse b ≡ after_all (button_edge b) (take ok is) (s.held_mouse b)
    after ok err is s =
        let t = track_all (counted ok err is s) (take ok is) in
        if_view (λ t. t.held_mouse b) (length is == 0) s (if t.dirty then publish t else t) _
          (nothing_sent (button_edge b) ok is (s.held_mouse b))
          (settled_view (λ t. t.held_mouse b) t.dirty t refl
            ∙ track_all-button (take ok is) (counted ok err is s) b)

either_view :
    (view : Sender → Bool) (b : Bool) (x y : Sender × ℕ)
    → (b ≡ true → view x.0 ≡ false)
    → (b ≡ false → view y.0 ≡ false)
    → view (if b then x else y).0 ≡ false
either_view view true x y p q = p refl
either_view view false x y p q = q refl

pub release_all-view :
    (edge : Input → Bool → Bool) (view : Sender → Bool) (ok err retried : ℕ) (s : Sender)
    → IsView edge view
    → length (releases s) ≤ 64
    → (view s ≡ true → (h : Bool) → after_all edge (releases s) h ≡ false)
    → All (Lifts edge) (releases s)
    → view (release_all ok err retried s).0 ≡ false
unfolding release_all
release_all-view edge view ok err retried s v h r a =
    let is = release_inputs s in
    let whole = release_inputs-releases s h in
    let both : (after_all edge is (view s) ≡ false)
        × (after_all edge is (after_all edge (take ok is) (view s)) ≡ false) =
      rw whole (released edge (releases s) (view s) r a ok) in
    let sent = send ok err is s in
    either_view view (length is == 0) (s, 0) _
      (λ z. sym (ap (λ js. after_all edge js (view s)) (no_events is z)) ∙ both.0)
      (λ z.
        either_view view (ok == length is) (sent, ok) (publish (track_all sent is), ok + retried)
          (λ e.
            v.after_send ok err is s
            ∙ ap (λ js. after_all edge js (view s)) (take-whole ok is (ground arith))
            ∙ both.0)
          (λ e.
            v.after_publish (track_all sent is)
            ∙ v.after_track is sent
            ∙ ap (after_all edge is) (v.after_send ok err is s)
            ∙ both.1))

-- After `releaseAll` the sender has no key and no button as held, whatever part of the events Windows
-- takes at the first and at the second attempt, if the releases fit into its buffer of 64 events.
pub release_all-IsReleased :
    (ok err retried : ℕ) (s : Sender)
    → length (releases s) ≤ 64
    → IsReleased (release_all ok err retried s).0
release_all-IsReleased ok err retried s h = record {
  no_key = λ vk p b.
      release_all-view (key_edge vk) (λ t. t.held_keys vk) ok err retried s (key-IsView vk) h
        (λ e x. releases-key s vk x p b e) (releases-lift_key s vk);
  no_button = λ b l.
      release_all-view (button_edge b) (λ t. t.held_mouse b) ok err retried s (button-IsView b) h
        (λ e x. releases-button s b x l e) (releases-lift_button s b);
}
