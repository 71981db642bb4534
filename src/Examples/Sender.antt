-- ===== src/Examples/Sender.antt =====
-- Calls of the sender, of which Windows takes only a part.
use infinity_clicker.Base.{◌+◌, ◌++◌, ℕ, ◌≡◌, refl, arith, true, false, List, [], ◌∷◌, some, length}
use infinity_clicker.Input.Action.{mouse_input, key_input, left_down}
use infinity_clicker.Input.HeldState.{HeldShared, fresh_shared, up_events, set_bits, set_buttons}
use infinity_clicker.Input.KeyChord.{button_code}
use infinity_clicker.Input.Sender.{
  Sender, init, tag_inf_click, release_inputs, track, track_all, publish, send,
}
use infinity_clicker.Input.Sender.Releases.{releases}
use infinity_clicker.Input.Sender.Taken.{Agrees, IsLifted, taken, taken_all, release_all-lifts}
use infinity_clicker.Input.Sender.Mirror.{Call, call_send, call_release, do_call, do_calls}
use infinity_clicker.Guardian.{
  mark_clean_exit, open_section, guardian_code, run_guardian, crash_release,
}
use infinity_clicker.Guardian.Once.{run_guardian-releases}

-- The button and the key go down, but the second key is not taken.
abbrev two_of_three : List Call
two_of_three =
    call_send 2 5 (
      mouse_input left_down 0 tag_inf_click
      ∷ key_input 0x41 30 false false true tag_inf_click
      ∷ key_input 0x42 48 false false true tag_inf_click
      ∷ [])
    ∷ []

run_guardian-releases_example :
    let s = do_calls two_of_three (init (some (fresh_shared 7))) in
    let answers = false ∷ true ∷ [] in
    let taken : ℕ = 2 in
    (h : HeldShared) × (s.shared ≡ some h)
    × (h.clean_exit ≡ 0
        → run_guardian true answers taken h
          ≡ (guardian_code taken (release_inputs s), release_inputs s))
    × (run_guardian true answers taken (mark_clean_exit h) ≡ (0, []))
    × (h.clean_exit ≡ 0
        → (h' : HeldShared) × (crash_release false (some h) ≡ (release_inputs s, some h'))
          × (run_guardian true answers taken h' ≡ (0, [])))
unfolding open_section
run_guardian-releases_example = run_guardian-releases 7 two_of_three (false ∷ true ∷ []) 2 refl

still_held : (do_calls two_of_three (init (some (fresh_shared 7)))).held_keys 0x41 ≡ true
unfolding do_calls do_call track_all send track publish init
still_held = refl

not_taken : (do_calls two_of_three (init (some (fresh_shared 7)))).held_keys 0x42 ≡ false
unfolding do_calls do_call track_all send track publish init
not_taken = refl

-- The sender after these calls.
abbrev holder : Sender
holder = do_calls two_of_three (init (some (fresh_shared 7)))

length-holder : length (releases holder) ≡ 2
unfolding do_calls do_call track_all send track publish init set_bits set_buttons button_code
length-holder = refl

two_releases : 1 + 1 ≡ length (release_inputs holder)
unfolding do_calls do_call track_all send track publish init set_bits set_buttons button_code
    release_inputs up_events
two_releases = refl

-- The first attempt takes one of the two releases, the second the other.
release_all-lifts_example :
    let s = do_calls two_of_three (init (some (fresh_shared 7))) in
    let before = taken_all two_of_three (init (some (fresh_shared 7))) in
    Agrees before s × IsLifted (before ++ taken (call_release 1 5 1) s)
release_all-lifts_example =
    release_all-lifts (some (fresh_shared 7)) two_of_three 1 5 1 (_, _)
      (omega (arith, length-holder), two_releases)
