-- ===== src/Guardian.antt =====
-- src/platform/win/Guardian.cpp: the process that waits for the end of the program and releases what
-- is then still held, and the handler of a crash. The log, the dump and the start of the process are
-- left out.
use infinity_clicker.Base.{
  ℕ, zero, suc, Bool, true, false, not, if◌then◌else◌, ◌==◌, List, [], ◌∷◌, Option, none, some,
  length,
}
use infinity_clicker.Input.Action.{Input}
use infinity_clicker.Input.HeldState.{HeldShared, release_held_from}
use infinity_clicker.Input.Sender.{tag_inf_click}
pub mod Once

-- `markCleanExit`
unfoldable pub mark_clean_exit : HeldShared → HeldShared
mark_clean_exit h = record h { clean_exit = 1 }

-- The loop that opens the section, with `n` tries to go; the list has the answers of Windows.
unfoldable pub open_section : ℕ → List Bool → Bool
open_section zero answers = false
open_section (suc n) [] = false
open_section (suc n) (true ∷ answers) = true
open_section (suc n) (false ∷ answers) = open_section n answers

-- The exit code for the events that are sent, of which Windows takes `taken`.
abbrev pub guardian_code : ℕ → List Input → ℕ
guardian_code taken events = if length events == 0 then 0 else if taken == 0 then 0 else 10

-- The exit code of `runGuardian`, and the events that it sends. `found` tells whether the parent
-- could be opened, `taken` is what `SendInput` returns, and `h` is the section when the parent has ended.
unfoldable pub run_guardian : Bool → List Bool → ℕ → HeldShared → ℕ × List Input
unfolding open_section release_held_from
run_guardian found answers taken h =
    let events = (release_held_from h tag_inf_click).0 in
    if not found
    then (2, [])
    else if not (open_section 50 answers)
    then (3, [])
    else if h.clean_exit == 0
    then (guardian_code taken events, events)
    else (0, [])

-- What a handler of a crash sends and leaves; `in_crash` tells whether one has run.
abbrev pub crash_part : Option HeldShared → List Input × Option HeldShared
crash_part none = ([], none)
crash_part (some h) = let (events, h') = release_held_from h tag_inf_click in (events, some h')

unfoldable pub crash_release : Bool → Option HeldShared → List Input × Option HeldShared
unfolding release_held_from
crash_release in_crash shared = if in_crash then ([], shared) else crash_part shared
