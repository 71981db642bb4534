-- ===== src/Guardian/Once.antt =====
-- What is held when the program ends is released once, by the handler of a crash or by the guardian of
-- src/platform/win/Guardian.cpp.
use infinity_clicker.Base.{
  ℕ, Bool, true, false, ◌≡◌, refl, ap, ◌∙◌, List, [], some, ◌==◌, Bool-cases, inl, inr,
}
use infinity_clicker.Input.Action.{Input}
use infinity_clicker.Input.HeldState.{
  HeldShared, fresh_shared, release_held_from, up_events, set_bits, set_buttons, k_magic,
}
use infinity_clicker.Input.Sender.{init, release_inputs, tag_inf_click}
use infinity_clicker.Input.Sender.Mirror.{Call, do_calls}
use infinity_clicker.Input.Sender.Guardian.{release_held_from-release_inputs}
use infinity_clicker.Guardian.{
  mark_clean_exit, open_section, guardian_code, run_guardian, crash_release,
}

run_guardian_clean :
    (answers : List Bool) (taken : ℕ) (h : HeldShared)
    → open_section 50 answers ≡ true
    → run_guardian true answers taken (mark_clean_exit h) ≡ (0, [])
unfolding run_guardian mark_clean_exit
run_guardian_clean answers taken h opened = rw opened

run_guardian_killed :
    (answers : List Bool) (taken : ℕ) (h : HeldShared)
    → open_section 50 answers ≡ true
    → h.clean_exit ≡ 0
    → let events = (release_held_from h tag_inf_click).0 in
      run_guardian true answers taken h ≡ (guardian_code taken events, events)
unfolding run_guardian
run_guardian_killed answers taken h opened killed = rw (opened, killed)

-- A second release finds nothing held.
release_held_from_again :
    (h : HeldShared)
    → (release_held_from (release_held_from h tag_inf_click).1 tag_inf_click).0 ≡ []
unfolding release_held_from up_events set_bits set_buttons
release_held_from_again h = elim (Bool-cases (h.magic == k_magic)) [
  | inl e ↦ rw (e, e) refl
  | inr e ↦ rw (e, e) refl
]

clean_exit-release_held_from :
    (h : HeldShared) → (release_held_from h tag_inf_click).1.clean_exit ≡ h.clean_exit
unfolding release_held_from
clean_exit-release_held_from h = elim (Bool-cases (h.magic == k_magic)) [
  | inl e ↦ rw e
  | inr e ↦ rw e
]

-- After any calls of the sender that owns a fresh shared record, whatever part of the events Windows
-- takes, the guardian that has found the program and its record sends, if the program is killed, exactly
-- the events by which `releaseAll` would release what is held, and its exit code is 10 if Windows
-- takes any of them, else 0. After a clean exit it sends nothing. If a handler of a crash comes first, that one
-- sends these events and the guardian none.
pub run_guardian-releases :
    (pid : ℕ) (cs : List Call) (answers : List Bool) (taken : ℕ)
    → open_section 50 answers ≡ true
    → let s = do_calls cs (init (some (fresh_shared pid))) in
      (h : HeldShared) × (s.shared ≡ some h)
      × (h.clean_exit ≡ 0
          → run_guardian true answers taken h
            ≡ (guardian_code taken (release_inputs s), release_inputs s))
      × (run_guardian true answers taken (mark_clean_exit h) ≡ (0, []))
      × (h.clean_exit ≡ 0
          → (h' : HeldShared) × (crash_release false (some h) ≡ (release_inputs s, some h'))
            × (run_guardian true answers taken h' ≡ (0, [])))
unfolding crash_release
run_guardian-releases pid cs answers taken opened =
    let s = do_calls cs (init (some (fresh_shared pid))) in
    let (h, shared, events) = release_held_from-release_inputs pid cs in
    let h' : HeldShared = (release_held_from h tag_inf_click).1 in
    (
      h,
      shared,
      λ killed.
          run_guardian_killed answers taken h opened killed
          ∙ ap (λ l. (guardian_code taken l, l)) events,
      run_guardian_clean answers taken h opened,
      λ killed. (
        h',
        ap (λ (l : List Input). (l, some h')) events,
        run_guardian_killed answers taken h' opened (clean_exit-release_held_from h ∙ killed)
            ∙ ap (λ l. (guardian_code taken l, l)) (release_held_from_again h),
      ),
    )
