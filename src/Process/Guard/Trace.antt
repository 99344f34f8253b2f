-- ===== src/Process/Guard/Trace.antt =====
-- process/guard.py: what a guarded launch asks of its adapters, and what it reports of it.
use civ4_turn_relay.Prelude.{
  ◌≡◌, ap, ◌⊎◌, inl, inr, refl, arith, Bool, true, false, Option, none, some, List, [], ◌∷◌,
}
use civ4_turn_relay.Domain.Manifest.{optional}
use civ4_turn_relay.Process.Guard.{
  MachineScanOutcome, GuardCleanupOutcome, launch_valid, before_release, MachineScanResult,
  no_match, exact_match, indeterminate, GuardAcquireOutcome, acquired, acquired_abandoned, busy,
  unavailable, held, LaunchResult, GuardedLaunchResult, guarded_valid, Answers, Event, ask_acquire,
  ask_scan, ask_launch, ask_release, launch_to_guarded, is_deferred, cleanup_of, is_recovered,
  constructed, launched_result, by_scan, scan_and_launch, with_cleanup, run_held, by_acquisition,
  execute_guarded_launch,
}

-- What a run returns where no launch was asked: an exception of the scan, or a deferral without an
-- identity, with what the release came to.
abbrev pub IsDeferral : Answers → Option GuardedLaunchResult → Type 0
IsDeferral a r =
    ((r ≡ none) × (a.scan ≡ none))
    ⊎ ((d : GuardedLaunchResult) × (r ≡ some d)
        × (is_deferred d.outcome ≡ true)
        × (d.identity ≡ none)
        × (d.cleanup_outcome ≡ some (cleanup_of a.release)))

-- What a run returns where the launch was asked: its exception, or its result, with what the release
-- came to.
abbrev pub IsLaunch : Answers → Option GuardedLaunchResult → Type 0
IsLaunch a r =
    ((r ≡ none) × (a.launch ≡ none))
    ⊎ ((l : LaunchResult) × ((d : GuardedLaunchResult) × (a.launch ≡ some l)
          × (r ≡ some d)
          × (d.outcome ≡ launch_to_guarded l.outcome)
          × (d.identity ≡ l.identity)
          × (d.cleanup_outcome ≡ some (cleanup_of a.release))))

-- How a run goes.
pub data IsRun (a : Answers) (r : Option GuardedLaunchResult) (asked : List Event) : Type 0 where
  -- The guard was not held: nothing else is asked, and nothing is released.
  not_held :
      (d : GuardedLaunchResult)
      → held a.acquisition ≡ false
      → asked ≡ ask_acquire ∷ []
      → r ≡ some d
      → d.identity ≡ none
      → IsRun a r asked
  -- The scan found or suspected a process, or raised.
  not_launched :
      held a.acquisition ≡ true
      → asked ≡ ask_acquire ∷ ask_scan ∷ ask_release ∷ []
      → IsDeferral a r
      → IsRun a r asked
  -- The scan found no match.
  launched_once :
      (s : MachineScanResult)
      → held a.acquisition ≡ true
      → a.scan ≡ some s
      → s.outcome ≡ no_match
      → asked ≡ ask_acquire ∷ ask_scan ∷ ask_launch ∷ ask_release ∷ []
      → IsLaunch a r
      → IsRun a r asked

abbrev outcome_of : Bool → LaunchResult → Option GuardCleanupOutcome → GuardedLaunchResult
outcome_of recovered l cleanup = record {
  outcome = launch_to_guarded l.outcome;
  identity = l.identity;
  existing_pid = none;
  recovered_abandoned_guard = recovered;
  cleanup_outcome = cleanup;
}

outcome_of-valid :
    (recovered : Bool) (l : LaunchResult) (cleanup : Option GuardCleanupOutcome)
    → launch_valid l ≡ true
    → guarded_valid (outcome_of recovered l cleanup) ≡ true
unfolding guarded_valid launch_valid launch_to_guarded
outcome_of-valid recovered l cleanup h = ground arith

launched-IsLaunch :
    (a : Answers) (recovered : Bool) (l : Option LaunchResult)
    → a.launch ≡ l
    → optional launch_valid l ≡ true
    → IsLaunch a (with_cleanup (cleanup_of a.release) (launched_result recovered l))
unfolding with_cleanup launched_result constructed
launched-IsLaunch a recovered none e v = inl (refl, e)
launched-IsLaunch a recovered (some l) e v = rw (outcome_of-valid recovered l none v) (
    rw (outcome_of-valid recovered l (some (cleanup_of a.release)) v)
      (inr (l, (outcome_of recovered l (some (cleanup_of a.release)), e, refl, refl, refl, refl))))

module _ (a : Answers) (valid : optional launch_valid a.launch ≡ true)
    (holds : held a.acquisition ≡ true) where
  by_scan-IsRun :
      (s : MachineScanResult) (o : MachineScanOutcome)
      → a.scan ≡ some s
      → s.outcome ≡ o
      → IsRun a
          (with_cleanup (cleanup_of a.release) (by_scan a (is_recovered a.acquisition) o s.pid).0)
          (ask_acquire ∷ before_release (by_scan a (is_recovered a.acquisition) o s.pid).1)
  unfolding by_scan with_cleanup constructed guarded_valid is_deferred
  by_scan-IsRun s exact_match e o = not_launched holds refl (inr (_, refl, refl, refl, refl))
  by_scan-IsRun s indeterminate e o = not_launched holds refl (inr (_, refl, refl, refl, refl))
  by_scan-IsRun s no_match e o =
      launched_once s holds e o refl (launched-IsLaunch a _ a.launch refl valid)

  scan-IsRun :
      (s : Option MachineScanResult)
      → a.scan ≡ s
      → IsRun a
          (with_cleanup (cleanup_of a.release) (scan_and_launch a (is_recovered a.acquisition) s).0)
          (ask_acquire ∷ before_release (scan_and_launch a (is_recovered a.acquisition) s).1)
  unfolding scan_and_launch with_cleanup
  scan-IsRun none e = not_launched holds refl (inl (refl, e))
  scan-IsRun (some s) e = by_scan-IsRun s s.outcome e refl

  run_held-IsRun : IsRun a (run_held a).0 (run_held a).1
  unfolding run_held
  run_held-IsRun = scan-IsRun a.scan refl

acquisition-IsRun :
    (a : Answers) (g : GuardAcquireOutcome)
    → a.acquisition ≡ g
    → optional launch_valid a.launch ≡ true
    → IsRun a (by_acquisition a g).0 (by_acquisition a g).1
unfolding by_acquisition held
acquisition-IsRun a unavailable e v = not_held _ (ap held e) refl refl refl
acquisition-IsRun a busy e v = not_held _ (ap held e) refl refl refl
acquisition-IsRun a acquired e v = run_held-IsRun a v (ap held e)
acquisition-IsRun a acquired_abandoned e v = run_held-IsRun a v (ap held e)

-- Where the launch adapter's result is one that its constructor accepts, a guarded launch goes in one
-- of three ways: without the guard it asks for nothing more; with it, it scans, launches at most once
-- and only after a scan without a match, and releases the guard exactly once, at the end, also where
-- the scan or the launch raises. It returns the launch's outcome and identity whatever the release
-- came to, which it reports apart; and it raises only where the scan or the launch does.
pub execute_guarded_launch-IsRun :
    (a : Answers)
    → optional launch_valid a.launch ≡ true
    → IsRun a (execute_guarded_launch a).0 (execute_guarded_launch a).1
unfolding execute_guarded_launch
execute_guarded_launch-IsRun a v = acquisition-IsRun a a.acquisition refl v
