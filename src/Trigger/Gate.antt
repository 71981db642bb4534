-- ===== src/Trigger/Gate.antt =====
-- `evaluateGate` of src/trigger/TriggerEngine.cpp: may the program act on the foreground window?
-- `process_name` is `procutil::processNameFromPid` and `lower` is `toLowerW`; a process id of 0
-- stands for no window.
use infinity_clicker.Base.{
  ℕ, Bool, true, false, ◌&&◌, ◌||◌, not, if◌then◌else◌, ◌==◌, List, [], ◌∷◌,
}
use infinity_clicker.Engine.Timed.{is_empty}
pub mod Decision

pub data PauseReason : Type 0 where
  no_reason target_not_foreground own_window test_gate : PauseReason

abbrev pub reason_code : PauseReason → ℕ
reason_code no_reason = 0
reason_code target_not_foreground = 1
reason_code own_window = 2
reason_code test_gate = 3

pub record GateConfig : Type 0 where
  pub filter_enabled : Bool
  pub pause_on_own_window : Bool
  pub has_test_pad : Bool

-- The window in the foreground: its process, and whether its root is the test pad.
pub record Window : Type 0 where
  pub pid : ℕ
  pub is_own : Bool
  pub is_test_pad : Bool

module _ {Name : Type 0} (same_name : Name → Name → Bool) (no_name : Name) (process_name : ℕ → Name)
    (lower : Name → Name) where
  pub record Gate : Type 0 where
    pub last_pid : ℕ
    pub last_name : Name
    pub fg_name : Name
    pub is_open : Bool
    pub reason : PauseReason

  abbrev pub is_target : Name → List Name → Bool
  is_target n [] = false
  is_target n (t ∷ ts) = same_name t n || is_target n ts

  -- The name, from the cache if the process is the last one that was looked up.
  unfoldable pub name_of : ℕ → Gate → Name
  name_of pid g =
      if pid == 0 then no_name else if pid == g.last_pid then g.last_name else process_name pid

  -- Whether the gate is open, and the reason if it is not.
  unfoldable pub decide_gate : GateConfig → List Name → Window → Name → Bool × PauseReason
  decide_gate c targets w name =
      if not (w.pid == 0) && w.is_own && c.has_test_pad && w.is_test_pad
      then (true, no_reason)
      else if not (w.pid == 0) && w.is_own && c.pause_on_own_window
      then (false, own_window)
      else if c.filter_enabled && not (is_empty targets) && not (is_target (lower name) targets)
      then (false, target_not_foreground)
      else (true, no_reason)

  abbrev bool_differs : Bool → Bool → Bool
  bool_differs true b = not b
  bool_differs false b = b

  -- The new state, and whether the waiting scheduler and the sink are told of a change.
  unfoldable pub evaluate_gate : GateConfig → List Name → Window → Gate → Gate × Bool
  evaluate_gate c targets w g =
      let name = name_of w.pid g in
      let (open_now, why) = decide_gate c targets w name in
      (
        record {
          last_pid = w.pid;
          last_name = name;
          fg_name = name;
          is_open = open_now;
          reason = why;
        },
        bool_differs g.is_open open_now || not (reason_code g.reason == reason_code why),
      )
