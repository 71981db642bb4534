-- ===== src/App.antt =====
-- src/app/App.h and App.cpp: the application, which owns the store of profiles, the engine and the
-- trigger engine, and keeps them consistent. What it tells the other parts is a list of effects,
-- newest last. Clock readings are arguments, windows are numbers with 0 for none, and a status is a
-- value that stands for its text. The log, the snapshot and the meters are left out.
use mathlib.Core.Option
use infinity_clicker.Base.{
  ℕ, zero, suc, ◌+◌, ◌-◌, ◌^◌, Bool, true, false, ◌&&◌, ◌||◌, not, if◌then◌else◌, ltb, leb, ◌==◌,
  List, [], ◌∷◌, ◌++◌, Option, none, some,
}
use infinity_clicker.Json.{Text, NumArith, text_eq}
use infinity_clicker.Modes.{ModeParams, RunLimits}
use infinity_clicker.Input.KeyChord.{KeyChord, is_mouse}
use infinity_clicker.Input.Action.{InputAction}
use infinity_clicker.Engine.{LatePolicy}
use infinity_clicker.Trigger.{TriggerConfig}
use infinity_clicker.Profiles.Keys.{Precision, ThreadPrio}
use infinity_clicker.Profiles.Profile.{RateArith, Profile, clamp_rate}
use infinity_clicker.Profiles.Settings.{AppSettings}
use infinity_clicker.Profiles.Store.Defaults.{defaults, new_profile}
use infinity_clicker.Profiles.Store.Load.{Store, or_defaults}
use infinity_clicker.Profiles.Store.{set_active}
pub mod Operations
pub mod Capture
pub mod Picker
pub mod InForce
pub mod Sequence
pub mod Backpressure
pub mod Emergency
pub mod Saving
pub mod Late

pub data CaptureTarget : Type 0 where
  no_target for_trigger for_action for_emergency : CaptureTarget

-- The texts that `setStatus` shows.
pub data Status : Type 0 where
  hook_failed not_saved binding_cancelled stopped_all left_refused : Status
  trigger_is action_is emergency_is : KeyChord → Status

-- `TriggerConfig` as `applyConfigs` fills it: the part that the hooks read, and that of the gate.
pub record TriggerSetup : Type 0 where
  pub hooks : TriggerConfig
  pub filter_enabled : Bool
  pub target_processes : Text
  pub pause_on_own_window : Bool
  pub own_window : ℕ
  pub test_pad : ℕ

module _ (na : NumArith) (ra : RateArith na) where
  -- `EngineConfig` of src/scheduler/Engine.h, before the scheduler compiles the action.
  pub record EngineSetup : Type 0 where
    pub action : InputAction
    pub mode : ModeParams
    pub max_mode : Bool
    pub cps : na.Number
    pub precision : Precision
    pub priority : ThreadPrio
    pub late_policy : LatePolicy
    pub max_batch_actions : ℕ
    pub max_inflight : ℕ
    pub test_target : ℕ

  -- `makeEngineConfig` of src/profiles/Profile.cpp
  unfoldable pub make_engine_config : Profile na ra → EngineSetup
  make_engine_config p = record {
    action = p.action;
    mode = p.mode;
    max_mode = p.max_mode;
    cps = clamp_rate na ra p.cps;
    precision = p.precision;
    priority = p.priority;
    late_policy = p.late_policy;
    max_batch_actions = p.max_batch;
    max_inflight = if p.max_backpressure then p.max_inflight else 0;
    test_target = 0;
  }

  -- What the application tells the other parts.
  pub data Effect : Type 0 where
    arm_engine : Bool → Effect
    start_run : RunLimits → Effect
    stop_run halt_all shut_down : Effect
    capture_on capture_off reinstall_hooks : Effect
    save_store : Store na ra → Effect
    open_window close_window activate_window : Effect
    post_state post_emergency post_captured post_gate : Effect

  pub record App : Type 0 where
    pub store : Store na ra
    pub trigger_setup : TriggerSetup
    pub engine_setup : EngineSetup
    pub ui_window : ℕ
    pub pad_window : ℕ
    pub dirty : Bool
    pub save_at : ℕ
    pub lab_observe : Bool
    pub accept_bench_tag : Bool
    pub test_target : ℕ
    pub pad_exempt : Bool
    pub lab_run_active : Bool
    pub lab_run_base : ℕ
    pub capture_target : CaptureTarget
    pub capture_deadline : ℕ
    pub captured : Option KeyChord
    pub status : Option Status
    pub status_until : ℕ
    pub last_health : ℕ
    pub health_accepted : ℕ
    pub health_observed : ℕ
    pub effects : List Effect

  abbrev pub tell : App → Effect → App
  tell a e = record a { effects = a.effects ++ e ∷ [] }

  -- The first profile of the name, else `p`.
  abbrev pub named_or : List (Profile na ra) → Text → Profile na ra → Profile na ra
  named_or [] n p = p
  named_or (q ∷ qs) n p = if text_eq q.name n then q else named_or qs n p

  abbrev pub active_of : Profile na ra → List (Profile na ra) → Text → Profile na ra
  active_of usual [] n = usual
  active_of usual (p ∷ ps) n = named_or (p ∷ ps) n p

  -- A change of the first profile of the name; `none` if there is no such profile.
  abbrev pub change_named :
      (Profile na ra → Profile na ra) → List (Profile na ra) → Text → Option (List (Profile na ra))
  change_named f [] n = none
  change_named f (p ∷ ps) n =
      let rest = Option.map (λ l. p ∷ l) (change_named f ps n) in
      if text_eq p.name n then some (f p ∷ ps) else rest

  abbrev pub or_first :
      (Profile na ra → Profile na ra)
      → List (Profile na ra)
      → Option (List (Profile na ra))
      → List (Profile na ra)
  or_first f ps (some changed) = changed
  or_first f [] none = []
  or_first f (p ∷ ps) none = f p ∷ ps

  -- `map_vk` and `translate` are what `defaults` reads.
  module _ (map_vk : ℕ → ℕ) (translate : Text → Text) where
    -- `ProfileStore::active` gives an empty store the default profiles.
    abbrev pub settled : Store na ra → Store na ra
    settled s = record s { profiles = or_defaults na ra map_vk translate s.profiles }

    unfoldable pub active : Store na ra → Profile na ra
    active s = active_of (new_profile na ra map_vk) (settled s).profiles s.settings.active_profile

    -- A write through the reference that `active` returns.
    unfoldable pub change_active : (Profile na ra → Profile na ra) → Store na ra → Store na ra
    change_active f s =
        let ps = (settled s).profiles in
        record s { profiles = or_first f ps (change_named f ps s.settings.active_profile) }

    -- The backpressure of MAX mode, which needs the hook to see the events that arrive.
    abbrev pub backpressure : Profile na ra → Bool
    backpressure p = p.max_mode && p.max_backpressure && is_mouse p.action.chord

    unfoldable pub trigger_setup_of : App → TriggerSetup
    trigger_setup_of a =
        let p = active a.store in
        let s = a.store.settings in
        record {
          hooks = record {
            trigger = p.trigger;
            suppress_trigger = p.suppress_trigger;
            accept_injected = s.accept_injected_triggers;
            accept_bench_tag = a.accept_bench_tag;
            emergency = s.emergency;
            mouse_backend = p.mouse_backend;
            observe_mouse = a.lab_observe || backpressure p;
            has_own_window = not (a.ui_window == 0);
          };
          filter_enabled = p.filter_enabled;
          target_processes = p.target_process;
          pause_on_own_window = s.pause_on_own_window;
          own_window = a.ui_window;
          test_pad = if a.pad_exempt then a.pad_window else 0;
        }

    unfoldable pub engine_setup_of : App → EngineSetup
    unfolding make_engine_config
    engine_setup_of a =
        let p = active a.store in
        let e = make_engine_config p in
        record e {
          max_inflight = if backpressure p then e.max_inflight else 0;
          test_target = a.test_target;
        }

    unfoldable pub apply_configs : App → App
    unfolding trigger_setup_of engine_setup_of
    apply_configs a = record a {
      store = settled a.store;
      trigger_setup = trigger_setup_of a;
      engine_setup = engine_setup_of a;
    }
