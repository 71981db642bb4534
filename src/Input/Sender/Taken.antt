-- ===== src/Input/Sender/Taken.antt =====
-- What Windows has down by the events that it took from the sender of src/input/InputSender.cpp, and
-- what the sender holds for held.
use infinity_clicker.Base.{
  ℕ, zero, suc, ◌+◌, ◌≡◌, ◌≤◌, ◌<◌, refl, ap, sym, ◌∙◌, arith, Bool, true, false, List, [], ◌∷◌,
  ◌++◌, take, drop, length, All, Option,
}
use infinity_clicker.Input.Action.{Input}
use infinity_clicker.Input.HeldState.{HeldShared}
use infinity_clicker.Input.Sender.{Sender, init, release_inputs}
use infinity_clicker.Input.Sender.Tracking.{key_edge, button_edge, after_all, after_all-append}
use infinity_clicker.Input.Sender.Releases.{
  Lifts, releases, release_inputs-releases, releases-key, releases-lift_key, releases-button,
  releases-lift_button,
}
use infinity_clicker.Input.Sender.Empty.{
  released, IsView, key-IsView, button-IsView, release_all-view,
}
use infinity_clicker.Input.Sender.Mirror.{Call, call_send, call_release, do_call, do_calls}

-- The events of a call that Windows takes; a release has two attempts.
abbrev pub taken : Call → Sender → List Input
taken (call_send ok err is) s = take ok is
taken (call_release ok err retried) s =
    let is = release_inputs s in take ok is ++ take retried (drop ok is)

abbrev pub taken_all : List Call → Sender → List Input
taken_all [] s = []
taken_all (c ∷ cs) s = taken c s ++ taken_all cs (do_call c s)

-- Windows takes all the events of a release, in the two attempts, and they fit into the buffer.
abbrev pub IsWhole : Call → Sender → Type 0
IsWhole (call_send ok err is) s = Unit
IsWhole (call_release ok err retried) s =
    (length (releases s) ≤ 64) × (ok + retried ≡ length (release_inputs s))

abbrev pub AreWhole : List Call → Sender → Type 0
AreWhole [] s = Unit
AreWhole (c ∷ cs) s = IsWhole c s × AreWhole cs (do_call c s)

take-drop : (m n : ℕ) (is : List Input) → m + n ≡ length is → take m is ++ take n (drop m is) ≡ is
take-drop zero zero [] h = refl
take-drop zero (suc n) [] h = absurd (omega (arith, h))
take-drop zero zero (i ∷ is) h = absurd (omega (arith, h))
take-drop zero (suc n) (i ∷ is) h = ap (λ l. i ∷ l) (take-drop zero n is (omega (arith, h)))
take-drop (suc m) n [] h = absurd (omega (arith, h))
take-drop (suc m) n (i ∷ is) h = ap (λ l. i ∷ l) (take-drop m n is (omega (arith, h)))

-- What is seen of a sender, a key or a button, which a release lifts.
record IsSeen (edge : Input → Bool → Bool) (view : Sender → Bool) : Type 0 where
  is_view : IsView edge view
  lifted : (s : Sender) → view s ≡ true → (h : Bool) → after_all edge (releases s) h ≡ false
  lifts : (s : Sender) → All (Lifts edge) (releases s)

key-IsSeen : (vk : ℕ) → 0 < vk → vk < 256 → IsSeen (key_edge vk) (λ s. s.held_keys vk)
key-IsSeen vk p b = record {
  is_view = key-IsView vk;
  lifted = λ s e h. releases-key s vk h p b e;
  lifts = λ s. releases-lift_key s vk;
}

button-IsSeen : (b : ℕ) → b < 5 → IsSeen (button_edge b) (λ s. s.held_mouse b)
button-IsSeen b l = record {
  is_view = button-IsView b;
  lifted = λ s e h. releases-button s b h l e;
  lifts = λ s. releases-lift_button s b;
}

module _ {edge : Input → Bool → Bool} {view : Sender → Bool} (v : IsSeen edge view) where
  whole_release :
      (ok err retried : ℕ) (s : Sender)
      → IsWhole (call_release ok err retried) s
      → after_all edge (taken (call_release ok err retried) s) (view s) ≡ false
  whole_release ok err retried s w =
      ap (λ is. after_all edge is (view s)) (take-drop ok retried (release_inputs s) w.1)
      ∙ ap (λ is. after_all edge is (view s)) (release_inputs-releases s w.0)
      ∙ (released edge (releases s) (view s) (v.lifted s) (v.lifts s) ok).0

  do_call-taken :
      (c : Call) (s : Sender)
      → IsWhole c s
      → after_all edge (taken c s) (view s) ≡ view (do_call c s)
  unfolding do_call
  do_call-taken (call_send ok err is) s w = sym (v.is_view.after_send ok err is s)
  do_call-taken (call_release ok err retried) s w =
      whole_release ok err retried s w
      ∙ sym (release_all-view edge view ok err retried s v.is_view w.0 (v.lifted s) (v.lifts s))

  do_calls-taken :
      (cs : List Call) (s : Sender)
      → AreWhole cs s
      → after_all edge (taken_all cs s) (view s) ≡ view (do_calls cs s)
  unfolding do_calls
  do_calls-taken [] s w = refl
  do_calls-taken (c ∷ cs) s w =
      after_all-append edge (taken c s) (taken_all cs (do_call c s)) (view s)
      ∙ ap (after_all edge (taken_all cs (do_call c s))) (do_call-taken c s w.0)
      ∙ do_calls-taken cs (do_call c s) w.1

  then_release :
      (cs : List Call) (ok err retried : ℕ) (s : Sender)
      → AreWhole cs s
      → IsWhole (call_release ok err retried) (do_calls cs s)
      → after_all edge
          (taken_all cs s ++ taken (call_release ok err retried) (do_calls cs s))
          (view s)
        ≡ false
  then_release cs ok err retried s w r =
      after_all-append edge (taken_all cs s) (taken (call_release ok err retried) (do_calls cs s))
        (view s)
      ∙ ap (after_all edge (taken (call_release ok err retried) (do_calls cs s)))
          (do_calls-taken cs s w)
      ∙ whole_release ok err retried (do_calls cs s) r

-- The events leave down the keys and buttons that the sender has as held: the keys have the codes 1 to
-- 255, the buttons are five.
pub record Agrees (is : List Input) (s : Sender) : Type 0 where
  pub same_keys : (vk : ℕ) → 0 < vk → vk < 256 → after_all (key_edge vk) is false ≡ s.held_keys vk
  pub same_buttons : (b : ℕ) → b < 5 → after_all (button_edge b) is false ≡ s.held_mouse b

-- The events leave no key and no button down.
pub record IsLifted (is : List Input) : Type 0 where
  pub no_key : (vk : ℕ) → 0 < vk → vk < 256 → after_all (key_edge vk) is false ≡ false
  pub no_button : (b : ℕ) → b < 5 → after_all (button_edge b) is false ≡ false

-- After any calls of the sender, of whose actions Windows takes any part and of whose releases all that
-- they send, in the two attempts, the keys and buttons that the events it took have left down are those
-- that the sender has as held; after one more release of which it takes all, none is left down. The
-- events of each release have to fit into the buffer of 64.
pub release_all-lifts :
    (shared : Option HeldShared) (cs : List Call) (ok err retried : ℕ)
    → AreWhole cs (init shared)
    → IsWhole (call_release ok err retried) (do_calls cs (init shared))
    → let s = do_calls cs (init shared) in
      let before = taken_all cs (init shared) in
      Agrees before s × IsLifted (before ++ taken (call_release ok err retried) s)
unfolding init
release_all-lifts shared cs ok err retried w r = (
  record {
    same_keys = λ vk p b. do_calls-taken (key-IsSeen vk p b) cs (init shared) w;
    same_buttons = λ b l. do_calls-taken (button-IsSeen b l) cs (init shared) w;
  },
  record {
    no_key = λ vk p b. then_release (key-IsSeen vk p b) cs ok err retried (init shared) w r;
    no_button = λ b l. then_release (button-IsSeen b l) cs ok err retried (init shared) w r;
  },
)
