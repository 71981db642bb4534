-- ===== src/Lib.antt =====
-- Infinity Clicker, a Windows autoclicker: a model of its core, the path from a physical key to
-- the input that the program injects.
--
-- The parts, and the files that model them:
--   * Modes, Modes/Timeline (src/scheduler/Modes.h): what a press or a release of the trigger means
--     in each mode (`decideOnTriggerDown`, `decideOnTriggerUp`), and the grid of deadlines
--     (`Timeline::anchor`, `slot`, `next`, `skipLate`, `changePeriod`). The proofs are in
--     Modes/Timeline/Late.
--   * Input/Vk, Input/KeyChord, Input/Action (src/input/KeyChord, src/input/InputAction): a binding,
--     and the compilation of an action into timed steps of input (`compileAction`, with
--     `makeMouseInput`, `makeKeyInput`, `appendMods`). Proofs: Input/Action/Steps, Input/Action/Flat.
--   * Input/HeldState, Input/Sender (src/input/HeldState, src/input/InputSender): what is held down,
--     the copy that the watchdog process reads, and the releases (`track`, `publish`, `send`,
--     `releaseAll`, `releaseHeldFrom`). Proofs: Input/Sender/Tracking, Kept, Mirror,
--     Guardian, Releases, Empty and Taken, Input/Release.
--   * Guardian (src/platform/win/Guardian.cpp): the watchdog process (`runGuardian`), `markCleanExit`,
--     and the release by a handler of a crash (`crashRelease`). Proof: Guardian/Once.
--   * Trigger, with Trigger/Keys, Trigger/Mouse and Trigger/Run (src/trigger/TriggerEngine): the
--     hooks (`kbProc`, `mouseProc`), the handlers (`handleKey`, `handleMouse`), the capture of a
--     binding and `applyPendingConfig`; Trigger/Raw (`handleRawInput`), Trigger/Hooks (`updateHooks`),
--     Trigger/Gate (`evaluateGate`) and Trigger/Targets (the list of target programs). Proofs: there,
--     and Trigger/Gate/Decision, Trigger/Edges, Emergency, Swallow, Gaps.
--   * Engine, with Engine/Commands, Engine/Timed, Engine/Max and Engine/Run (src/scheduler/Engine):
--     the scheduler thread. Engine/Commands has a drained batch of commands, idle (`threadMain`) and
--     in a run (`handleRunCommands`); Engine/Timed and Engine/Max have the loops `runTimed` and
--     `runMax` with `pauseUntilGate`; Engine/Run has `doRun`. Proofs: the child modules of these.
--   * Telemetry/Histogram (`LogHistogram` of src/telemetry/Stats): buckets and percentiles. Proofs:
--     Telemetry/Histogram/Buckets and Rank.
--   * Telemetry/Running and Telemetry/RunStats (`Running` and `RunStats` of src/telemetry/Stats): the
--     counters of a run and the ring of slots of 100 ms; RunStats/Fill has what a snapshot shows
--     (`fill`). Proofs: RunStats/Slots, Held, Shown and Counted.
--   * Telemetry/SeqLock (`SeqLock` of src/telemetry/Stats): a writer and a reader, one access at a
--     time. Proof: Telemetry/SeqLock/Whole.
--   * Waiter, with Waiter/Loop (src/scheduler/PreciseWaiter): the model of how late the timer is, the
--     margin, and the wait (`waitUntil`). Proofs: Waiter/Margin, Model, Waits and Returns.
--   * App, with App/Capture, Operations and Sequence (src/app/App): the application and its operations
--     in any order; App/Picker (`keyPicker` of src/ui/Widgets.cpp, for the emergency stop). Proofs:
--     App/InForce, Backpressure, Emergency, Saving and Late.
--   * I18n, with its table in Core, AdvancedTop, AdvancedMiddle, AdvancedBottom, Settings, Views and
--     Widgets (src/core/I18n): translations (`tr`). Proofs: I18n/Placeholders and Kept.
--   * Clock (src/core/Clock): conversions of ticks.
--   * Str (src/core/Str): trimming and lower case.
--   * Json, with Json/Writer, Json/Lexer and Json/Parser (src/core/Json): values and their accessors,
--     the printer (`stringify`) and the parser (`parse`). Proofs: Json/RoundTrip and its child
--     modules, Json/Fuel.
--   * Profiles/Chord and Profiles/Action (the JSON in src/input/KeyChord and src/input/InputAction),
--     Profiles/Keys, Profile and Settings (`Profile` and `AppSettings` of src/profiles/Profile), and
--     Profiles/Store (`ProfileStore`): names, `save`, Store/Defaults (`defaults`) and Store/Load
--     (`load`). Proofs: Profiles/Stored, Store/Free, Names, RoundTrip, Sound and Saved.
--   * Base has the names and lemmas the parts share, Examples the theorems at concrete inputs.
--
-- How the parts meet. The trigger thread reports the edges of the trigger and the emergency stop
-- (`Notice`); the application posts them as commands of the scheduler (`Command`); a press decides,
-- by the mode, on a run and its limits; the run sends the steps of the compiled action through the
-- sender, here as a list of outputs; the sender tracks what is held.
-- The application hands the profile and the settings, as one pair of configurations, to the trigger
-- engine and the scheduler (`trigger_setup`, `engine_setup`); what else it tells them is a list of
-- effects. A run reports its actions to the counters (`Report`).
-- Profiles and settings are kept as JSON: `save` makes values of them and prints these, `load`
-- parses the two texts, and repairs names, numbers and the active profile.
--
-- Numbers. Values are natural numbers, and 32-bit and 64-bit fields wrap where the code can make
-- them wrap. Times are ticks of the performance counter. Periods, which are floating point in the
-- code, are a parameter (`PeriodArith`) with the laws that rounding keeps (`IsRounding`); so are the
-- conversion of times to ticks, the quantile's rank, the sort of the C++ library (`IsSort`), and the
-- keyboard layout (`MapVirtualKeyW`). The numbers of JSON are a parameter too (`NumArith`), with the
-- C library's printing, reading and conversion of them, and so are the bounds of a rate
-- (`RateArith`); what a theorem asks of them is a record (`IsDouble`, `IsPrinting`, `IsOrdered`).
-- The figures of a snapshot are computed over another parameter for floating point (`FloatArith`),
-- of which the theorems ask nothing. Text is a list of bytes, and for translations a sequence of
-- code points.
--
-- Loops. An iteration of a loop of the scheduler is a function of the state and of a tick: what the
-- iteration reads from outside (commands, clock, gate, how a wait ended). A run is the iteration
-- over a list of ticks, so no fuel is chosen: every prefix of every run is covered. Inner loops
-- have a bound that the code implies: the batch of late actions is at most 8, the index of
-- `skipLate` counts down to 0, `percentile` goes over the 312 buckets once. The JSON parser
-- runs on fuel: two units for each byte and one more for its recursion, the length and one more for
-- the loop of a string; that it never runs out is a theorem.
--
-- A wait reads a list of rounds; that it ends is a theorem about rounds in which the clock moves on.
--
-- Not modelled: the user interface (src/ui) but for the list of keys, the measurements (src/lab) but
-- for the closing of the test pad by the user, the names of keys, the file system, the publishing of
-- snapshots, the CPU meter, the log, the start of the process (src/main.cpp), and Windows.
pub mod App
pub mod Base
pub mod Clock
pub mod Engine
pub mod Examples
pub mod Guardian
pub mod I18n
pub mod Input
pub mod Json
pub mod Modes
pub mod Profiles
pub mod Str
pub mod Telemetry
pub mod Trigger
pub mod Waiter
