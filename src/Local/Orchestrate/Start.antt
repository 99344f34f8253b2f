-- ===== src/Local/Orchestrate/Start.antt =====
-- local/orchestrate.py: when a start of Civilization is commanded.
use civ4_turn_relay.Prelude.{
  ◌≡◌, refl, ◌∙◌, sym, ap, arith, if◌then◌else◌, is_some, Bool, true, false, Bool-cases, inl, inr,
  not, ◌&&◌, ◌||◌, Option, none, some, List, [], ◌∷◌, ◌++◌,
}
use civ4_turn_relay.Domain.Config.{TurnHandlingMode, standard, fully_managed, OperationalState}
use civ4_turn_relay.Local.Records.Types.{MatchLocalRecords, PostCommitCloseRecord}
use civ4_turn_relay.Local.Evidence.{HandoffEvidence}
use civ4_turn_relay.Local.Detect.Types.{DetectionResult}
use civ4_turn_relay.Local.Orchestrate.{
  OrchestrationIntentKind, OrchestrationIntent, start_civ, wait, intent, when, is_multiple,
  is_without_baseline, is_outgoing_state, is_unambiguous, is_error, ProcessObservation,
  matched_running_process, matched_exited_process, launch_already_attempted, has_outgoing,
  is_launch_state, managed_launch, standard_launch, launch_intents, active_intents, is_waiting,
  close_intents, closing_intents, decide_intents, chosen_target,
}

abbrev pub is_start : OrchestrationIntentKind → Bool
is_start start_civ = true
is_start _ = false

-- A command to start is among the intents.
unfoldable pub starts : List OrchestrationIntent → Bool
starts [] = false
starts (i ∷ is) = is_start i.kind || starts is

starts-append : (xs ys : List OrchestrationIntent) → starts (xs ++ ys) ≡ starts xs || starts ys
unfolding starts
starts-append [] ys = refl
starts-append (x ∷ xs) ys = ground (arith, starts-append xs ys)

close_starts :
    (t : Option PostCommitCloseRecord) (o : Option ProcessObservation)
    → starts (close_intents t o) ≡ false
unfolding starts close_intents
close_starts none o = refl
close_starts (some t) o = ground arith

closing_starts :
    (mode : TurnHandlingMode) (r : MatchLocalRecords) (o : Option ProcessObservation)
    (e : Option HandoffEvidence)
    → starts (closing_intents mode r o e) ≡ false
unfolding closing_intents starts
closing_starts standard r o e = refl
closing_starts fully_managed r o e = close_starts (chosen_target r e) o

-- The rule: in a launch state, where the client's own process does not run; in the Standard mode on
-- the user's request alone, in the Fully Managed mode where no outgoing save is active, on the
-- request or once for the accepted save, unless an earlier process may still run.
unfoldable pub may_start :
    TurnHandlingMode
    → OperationalState
    → MatchLocalRecords
    → Option DetectionResult
    → Option ProcessObservation
    → Bool
    → Bool
may_start standard state r d o user =
    is_launch_state state && not (matched_running_process r o) && user
may_start fully_managed state r d o user =
    is_launch_state state
    && not (matched_running_process r o)
    && not (has_outgoing d)
    && (user
        || (not (launch_already_attempted r)
            && (not (is_some r.process_association) || matched_exited_process r o)))

launch_starts :
    (mode : TurnHandlingMode) (state : OperationalState) (r : MatchLocalRecords)
    (d : Option DetectionResult) (o : Option ProcessObservation) (user : Bool)
    → starts (launch_intents mode state r d o user) ≡ may_start mode state r d o user
unfolding launch_intents managed_launch standard_launch may_start starts
launch_starts standard state r d o user = ground arith
launch_starts fully_managed state r d o user = ground arith

-- Another command in front, or behind.
other_first :
    (b : Bool) (i : OrchestrationIntent) (is : List OrchestrationIntent)
    → is_start i.kind ≡ false
    → starts (when b i ++ is) ≡ starts is
unfolding starts
other_first true i is h = rw h refl
other_first false i is h = refl

other_last :
    (b : Bool) (i : OrchestrationIntent) (is : List OrchestrationIntent)
    → is_start i.kind ≡ false
    → starts (is ++ when b i) ≡ starts is
unfolding starts
other_last b i is h = ground (arith, starts-append is (when b i))

active_starts :
    (mode : TurnHandlingMode) (state : OperationalState) (r : MatchLocalRecords)
    (d : Option DetectionResult) (o : Option ProcessObservation) (user : Bool)
    → starts (active_intents mode state r d o user) ≡ may_start mode state r d o user
unfolding active_intents
active_starts mode state r d o user =
    other_first (is_multiple d) _ _ refl
    ∙ (other_first (is_without_baseline d) _ _ refl
        ∙ (other_first
              (is_outgoing_state state && is_some r.play_session_baseline && is_unambiguous d) _ _
              refl
            ∙ (other_last (is_error state) _ _ refl ∙ launch_starts mode state r d o user)))

waiting_starts :
    (mode : TurnHandlingMode) (state : OperationalState) (r : MatchLocalRecords)
    (d : Option DetectionResult) (o : Option ProcessObservation) (user : Bool)
    → is_waiting state ≡ true
    → may_start mode state r d o user ≡ false
unfolding may_start is_waiting is_launch_state
waiting_starts standard state r d o user h = ground arith
waiting_starts fully_managed state r d o user h = ground arith

-- The decision, as one Boolean.
pub decide_intents-starts :
    (mode : TurnHandlingMode) (state : OperationalState) (r : MatchLocalRecords)
    (d : Option DetectionResult) (o : Option ProcessObservation) (e : Option HandoffEvidence)
    (user : Bool)
    → starts (decide_intents mode state r d o e user) ≡ may_start mode state r d o user
unfolding decide_intents starts
decide_intents-starts mode state r d o e user =
    starts-append (closing_intents mode r o e) _
    ∙ (ap (λ b. b || starts rest) (closing_starts mode r o e) ∙ rest_starts)
  where
    rest : List OrchestrationIntent
    rest = if is_waiting state then intent wait ∷ [] else active_intents mode state r d o user

    rest_starts : starts rest ≡ may_start mode state r d o user
    rest_starts = elim (Bool-cases (is_waiting state)) [
      | inl w ↦ rw w (sym (waiting_starts mode state r d o user w))
      | inr a ↦ rw a (active_starts mode state r d o user)
    ]
