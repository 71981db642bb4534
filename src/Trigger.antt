-- ===== src/Trigger.antt =====
-- src/trigger/TriggerEngine.h and TriggerEngine.cpp: physical input becomes trigger edges. This
-- file has the configuration, the state of the trigger thread and what both kinds of input share.
use Prim.Native.Nat.{bit_and}
use infinity_clicker.Base.{
  ℕ, ◌+◌, ◌%◌, ◌^◌, Bool, true, false, ◌&&◌, ◌||◌, not, if◌then◌else◌, ◌==◌, List, [], ◌∷◌,
  contains,
}
use infinity_clicker.Input.Vk
use infinity_clicker.Input.KeyChord.{
  KeyChord, is_keyboard, no_chord, mod_ctrl, mod_shift, mod_alt, mod_win, chord_eq, bool_eq,
}
pub mod Keys
pub mod Mouse
pub mod Run
pub mod Edges
pub mod Emergency
pub mod Swallow
pub mod Gaps
pub mod Gate
pub mod Targets
pub mod Hooks
pub mod Raw

pub data TriggerBackend : Type 0 where
  hook raw_input : TriggerBackend

pub record TriggerConfig : Type 0 where
  pub trigger : KeyChord
  pub suppress_trigger : Bool
  pub accept_injected : Bool
  pub accept_bench_tag : Bool
  pub emergency : KeyChord
  pub mouse_backend : TriggerBackend
  pub observe_mouse : Bool
  pub has_own_window : Bool

-- What the engine tells its sink; `captured` also posts a request to update the hooks.
pub data Notice : Type 0 where
  trigger_down trigger_up : (qpc : ℕ) → Notice
  emergency_stop : Notice
  captured : KeyChord → Notice

-- Capturing a binding: off, keyboard only, or keyboard and mouse.
pub data CaptureState : Type 0 where
  off keys_only keys_and_mouse : CaptureState

abbrev pub capturing : CaptureState → Bool
capturing off = false
capturing _ = true

pub record TriggerState : Type 0 where
  pub cfg : TriggerConfig
  pub phys_key : ℕ → Bool
  pub swallow_up : ℕ → Bool
  pub swallow_mouse_up : ℕ → Bool
  pub trig_down : Bool
  pub trig_suppressed : Bool
  pub capture_mod_vk : ℕ
  pub capture_mod_scan : ℕ
  pub capture_mod_ext : Bool
  pub capture_state : CaptureState
  pub physical_button_events : ℕ

unfoldable pub start_state : TriggerConfig → TriggerState
start_state c = record {
  cfg = c;
  phys_key = λ vk. false;
  swallow_up = λ vk. false;
  swallow_mouse_up = λ b. false;
  trig_down = false;
  trig_suppressed = false;
  capture_mod_vk = 0;
  capture_mod_scan = 0;
  capture_mod_ext = false;
  capture_state = off;
  physical_button_events = 0;
}

-- What a handler does: the new state, whether the event is kept from other programs, whether it
-- was used, and what the sink is told.
pub record Outcome : Type 0 where
  pub state : TriggerState
  pub swallow : Bool
  pub used : Bool
  pub notices : List Notice

-- The trigger part of `applyPendingConfig`; the targets of the window filter are left out.
unfoldable pub apply_config : TriggerConfig → TriggerState → TriggerState
apply_config c s =
    let s' = record s { cfg = c } in
    if chord_eq c.trigger s.cfg.trigger
    then s'
    else record s' { trig_down = false; trig_suppressed = false }

-- `kTagBench`
abbrev pub tag_bench : ℕ
tag_bench = 0x4942434E

unfoldable pub classify_physical : TriggerConfig → ℕ → Bool → Bool
classify_physical c extra injected =
    if extra == tag_bench
    then c.accept_bench_tag
    else if not injected
    then true
    else c.accept_injected

unfoldable pub phys_mods : (ℕ → Bool) → ℕ
phys_mods key =
    (if key Vk.lcontrol || key Vk.rcontrol then mod_ctrl else 0)
    + (if key Vk.lshift || key Vk.rshift then mod_shift else 0)
    + (if key Vk.lmenu || key Vk.rmenu then mod_alt else 0)
    + (if key Vk.lwin || key Vk.rwin then mod_win else 0)

-- `(physMods() & need) == need`
unfoldable pub mods_ok : TriggerState → ℕ → Bool
mods_ok s need = bit_and (phys_mods s.phys_key) need == need

unfoldable pub key_matches : KeyChord → ℕ → Bool → Bool
key_matches c vk ext =
    if not (is_keyboard c)
    then false
    else if c.code == Vk.control
    then contains vk (Vk.lcontrol ∷ Vk.rcontrol ∷ Vk.control ∷ [])
    else if c.code == Vk.shift
    then contains vk (Vk.lshift ∷ Vk.rshift ∷ Vk.shift ∷ [])
    else if c.code == Vk.menu
    then contains vk (Vk.lmenu ∷ Vk.rmenu ∷ Vk.menu ∷ [])
    else if c.code == Vk.return
    then vk == Vk.return && bool_eq ext c.extended
    else c.code == vk

-- The part that keys and mouse buttons share: an edge of the trigger itself. `armed` is what
-- `isArmed` of the sink answers.
unfoldable pub trigger_edge : Bool → ℕ → Bool → Bool → Bool → TriggerState → Outcome
trigger_edge down qpc armed mods swallow s =
    if down
    then (if s.trig_down || not mods
        then record { state = s; swallow = swallow; used = true; notices = [] }
        else let suppressed = s.cfg.suppress_trigger && armed in
          record {
            state = record s { trig_down = true; trig_suppressed = suppressed };
            swallow = swallow || suppressed;
            used = true;
            notices = trigger_down qpc ∷ [];
          })
    else (if s.trig_down
        then record {
          state = record s { trig_down = false; trig_suppressed = false };
          swallow = swallow || s.trig_suppressed;
          used = true;
          notices = trigger_up qpc ∷ [];
        }
        else record { state = s; swallow = swallow; used = true; notices = [] })
