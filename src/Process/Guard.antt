-- ===== src/Process/Guard.antt =====
-- process/guard.py and process/port.py: the scan of the machine's processes and the guarded launch.
-- The guard, the scan and the launch are adapters that are asked at most once each: their answers are
-- values, and a run gives the trace of what was asked. Messages are dropped.
pub mod Scan
pub mod Trace
use civ4_turn_relay.Prelude.{
  ℕ, if◌then◌else◌, is_some, Bool, true, false, not, ◌&&◌, Option, none, some, List, [], ◌∷◌, Text,
  codes, text_eq,
}

pub record ProcessScanEntry : Type 0 where
  pub pid : ℕ
  pub executable_path : Option Text
  pub name : Option Text

pub data MachineScanOutcome : Type 0 where
  no_match exact_match indeterminate : MachineScanOutcome

pub record MachineScanResult : Type 0 where
  pub outcome : MachineScanOutcome
  pub pid : Option ℕ

-- `ntpath.normpath`, `ntpath.basename` and `str.casefold` are parameters.
module _ (normpath base casefold : Text → Text) where
  unfoldable pub normalize_windows_executable : Text → Text
  normalize_windows_executable path = casefold (normpath path)

  unfoldable pub windows_executable_basename : Text → Text
  windows_executable_basename path = base (normalize_windows_executable path)

  -- Its path is known and is the configured one.
  unfoldable pub is_target : Text → ProcessScanEntry → Bool
  is_target executable e = elim e.executable_path [
    | none ↦ false
    | some path ↦
        text_eq (normalize_windows_executable path) (normalize_windows_executable executable)
  ]

  abbrev pub named_like : Text → Option Text → Bool
  named_like executable none = false
  named_like executable (some name) =
      not (text_eq (casefold name) [])
      && text_eq (casefold name) (windows_executable_basename executable)

  -- Its path is unknown, and its name is that of the configured executable.
  unfoldable pub is_lookalike : Text → ProcessScanEntry → Bool
  is_lookalike executable e = elim e.executable_path [
    | none ↦ named_like executable e.name
    | some path ↦ false
  ]

  abbrev pub scanned : Option ProcessScanEntry → MachineScanResult
  scanned none = record { outcome = no_match; pid = none }
  scanned (some e) = record { outcome = indeterminate; pid = some e.pid }

  -- The loop of `classify_scan_entries`, with the first entry that looks like the target.
  unfoldable pub scan_entries :
      Text → List ProcessScanEntry → Option ProcessScanEntry → MachineScanResult
  scan_entries executable [] seen = scanned seen
  scan_entries executable (e ∷ es) seen =
      let next = scan_entries executable es seen in
      let marked = scan_entries executable es (some e) in
      if is_target executable e
      then record { outcome = exact_match; pid = some e.pid }
      else if is_lookalike executable e && not (is_some seen)
      then marked
      else next

  unfoldable pub classify_scan_entries : Text → List ProcessScanEntry → MachineScanResult
  classify_scan_entries executable es = scan_entries executable es none

pub data GuardAcquireOutcome : Type 0 where
  acquired acquired_abandoned busy unavailable : GuardAcquireOutcome

-- `GuardAcquisition.held`
unfoldable pub held : GuardAcquireOutcome → Bool
held acquired = true
held acquired_abandoned = true
held _ = false

pub record ProcessIdentity : Type 0 where
  pub pid : ℕ
  pub process_start_time_utc : Text
  pub process_create_time_ns : ℕ
  pub executable_path : Text

pub data LaunchOutcome : Type 0 where
  launched adapter_unavailable spawn_failure exited_immediately identity_unverified : LaunchOutcome

pub record LaunchResult : Type 0 where
  pub outcome : LaunchOutcome
  pub identity : Option ProcessIdentity

-- `LaunchResult.__post_init__` returns.
unfoldable pub launch_valid : LaunchResult → Bool
launch_valid r = elim r.outcome [ launched ↦ is_some r.identity | _ ↦ not (is_some r.identity) ]

pub data GuardedLaunchOutcome : Type 0 where
  launched_guarded existing_civ_detected guard_busy scan_indeterminate spawn_failed exited_at_once
        unverified guard_unavailable no_adapter :
      GuardedLaunchOutcome

pub data GuardCleanupOutcome : Type 0 where
  released release_failed close_failed : GuardCleanupOutcome

pub record GuardedLaunchResult : Type 0 where
  pub outcome : GuardedLaunchOutcome
  pub identity : Option ProcessIdentity
  pub existing_pid : Option ℕ
  pub recovered_abandoned_guard : Bool
  pub cleanup_outcome : Option GuardCleanupOutcome

-- `GuardedLaunchResult.__post_init__` returns.
unfoldable pub guarded_valid : GuardedLaunchResult → Bool
guarded_valid r = elim r.outcome [
  | launched_guarded ↦ is_some r.identity
  | _ ↦ not (is_some r.identity)
]

-- `_LAUNCH_TO_GUARDED`
unfoldable pub launch_to_guarded : LaunchOutcome → GuardedLaunchOutcome
launch_to_guarded launched = launched_guarded
launch_to_guarded adapter_unavailable = no_adapter
launch_to_guarded spawn_failure = spawn_failed
launch_to_guarded exited_immediately = exited_at_once
launch_to_guarded identity_unverified = unverified

-- `LAUNCH_DEFERRED_OUTCOMES`
unfoldable pub is_deferred : GuardedLaunchOutcome → Bool
is_deferred existing_civ_detected = true
is_deferred guard_busy = true
is_deferred scan_indeterminate = true
is_deferred _ = false

-- The answers of the adapters: no value is an exception; that of the release carries its operation.
pub record Answers : Type 0 where
  pub acquisition : GuardAcquireOutcome
  pub scan : Option MachineScanResult
  pub launch : Option LaunchResult
  pub release : Option (Option Text)

pub data Event : Type 0 where
  ask_acquire ask_scan ask_launch ask_release : Event

abbrev pub unheld : GuardedLaunchOutcome → GuardedLaunchResult
unheld outcome = record {
  outcome = outcome;
  identity = none;
  existing_pid = none;
  recovered_abandoned_guard = false;
  cleanup_outcome = none;
}

-- `_classify_cleanup_error`
unfoldable pub classify_cleanup_error : Option Text → GuardCleanupOutcome
classify_cleanup_error none = release_failed
classify_cleanup_error (some operation) =
    if text_eq operation (codes "CloseHandle") then close_failed else release_failed

-- What the release came to, where no value is no exception.
unfoldable pub cleanup_of : Option (Option Text) → GuardCleanupOutcome
cleanup_of none = released
cleanup_of (some operation) = classify_cleanup_error operation

unfoldable pub is_recovered : GuardAcquireOutcome → Bool
is_recovered acquired_abandoned = true
is_recovered _ = false

-- The constructor raises on a result that is not valid.
unfoldable pub constructed : GuardedLaunchResult → Option GuardedLaunchResult
constructed r = if guarded_valid r then some r else none

unfoldable pub launched_result : Bool → Option LaunchResult → Option GuardedLaunchResult
launched_result recovered none = none
launched_result recovered (some l) = constructed (record {
  outcome = launch_to_guarded l.outcome;
  identity = l.identity;
  existing_pid = none;
  recovered_abandoned_guard = recovered;
  cleanup_outcome = none;
})

abbrev pub blocked : GuardedLaunchOutcome → Bool → Option ℕ → Option GuardedLaunchResult
blocked outcome recovered pid = some (record {
  outcome = outcome;
  identity = none;
  existing_pid = pid;
  recovered_abandoned_guard = recovered;
  cleanup_outcome = none;
})

-- `scan_and_launch`, with what it asks.
unfoldable pub by_scan :
    Answers → Bool → MachineScanOutcome → Option ℕ → Option GuardedLaunchResult × List Event
by_scan a recovered exact_match pid = (blocked existing_civ_detected recovered pid, ask_scan ∷ [])
by_scan a recovered indeterminate pid = (blocked scan_indeterminate recovered pid, ask_scan ∷ [])
by_scan a recovered no_match pid = (launched_result recovered a.launch, ask_scan ∷ ask_launch ∷ [])

unfoldable pub scan_and_launch :
    Answers → Bool → Option MachineScanResult → Option GuardedLaunchResult × List Event
scan_and_launch a recovered none = (none, ask_scan ∷ [])
scan_and_launch a recovered (some s) = by_scan a recovered s.outcome s.pid

-- The release, after a result or an exception of the scan and the launch.
unfoldable pub with_cleanup :
    GuardCleanupOutcome → Option GuardedLaunchResult → Option GuardedLaunchResult
with_cleanup cleanup none = none
with_cleanup cleanup (some r) = constructed (record r { cleanup_outcome = some cleanup })

abbrev pub before_release : List Event → List Event
before_release [] = ask_release ∷ []
before_release (e ∷ es) = e ∷ before_release es

unfoldable pub run_held : Answers → Option GuardedLaunchResult × List Event
run_held a =
    let (primary, asked) = scan_and_launch a (is_recovered a.acquisition) a.scan in
    (with_cleanup (cleanup_of a.release) primary, ask_acquire ∷ before_release asked)

unfoldable pub by_acquisition :
    Answers → GuardAcquireOutcome → Option GuardedLaunchResult × List Event
by_acquisition a unavailable = (some (unheld guard_unavailable), ask_acquire ∷ [])
by_acquisition a busy = (some (unheld guard_busy), ask_acquire ∷ [])
by_acquisition a _ = run_held a

-- `execute_guarded_launch`: the result, or an exception, and what was asked in which order.
unfoldable pub execute_guarded_launch : Answers → Option GuardedLaunchResult × List Event
execute_guarded_launch a = by_acquisition a a.acquisition
