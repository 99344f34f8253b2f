-- ===== src/Local/Orchestrate/Close.antt =====
-- local/orchestrate.py: when the closing of Civilization is commanded, and of which process.
use civ4_turn_relay.Prelude.{
  ◌≡◌, ◌⊎◌, if◌then◌else◌, Bool, true, false, Option, some, List, [], ◌∷◌,
}
use civ4_turn_relay.Domain.Config.{TurnHandlingMode, fully_managed}
use civ4_turn_relay.Local.Records.Types.{
  MatchLocalRecords, PostCommitCloseRecord, ProcessAssociationRecord,
}
use civ4_turn_relay.Local.Evidence.{HandoffEvidence}
use civ4_turn_relay.Local.Orchestrate.{
  OrchestrationIntentKind, OrchestrationIntent, close_target_members, close_civ_after_commit,
  ProcessObservation, close_of,
}

abbrev pub is_close : OrchestrationIntentKind → Bool
is_close close_civ_after_commit = true
is_close _ = false

-- The commands to close.
unfoldable pub closings : List OrchestrationIntent → List OrchestrationIntent
closings [] = []
closings (i ∷ is) = let rest = closings is in if is_close i.kind then i ∷ rest else rest

-- What entitles to close: a pending record, or the completed handoff of the turn that the client's
-- process was started for.
abbrev pub IsEntitled : MatchLocalRecords → Option HandoffEvidence → PostCommitCloseRecord → Type 0
IsEntitled r e t =
    (r.pending_post_commit_close ≡ some t)
    ⊎ ((h : HandoffEvidence) × ((a : ProcessAssociationRecord) × (e ≡ some h)
          × (r.process_association ≡ some a)
          × (a.protocol_sequence ≡ h.source_protocol_sequence)
          × (t ≡ close_of h a)))

-- The process was observed to run, by its id, its creation token and its path.
abbrev pub IsObserved : Option ProcessObservation → PostCommitCloseRecord → Type 0
IsObserved o t =
    (p : ProcessObservation) × (o ≡ some p)
    × (p.pid ≡ t.pid)
    × (p.process_create_time_ns ≡ t.process_create_time_ns)
    × (p.executable_path ≡ t.executable_path)
    × (p.running ≡ true)

-- The commands to close: none, or one.
abbrev pub IsClosing :
    TurnHandlingMode
    → MatchLocalRecords
    → Option ProcessObservation
    → Option HandoffEvidence
    → List OrchestrationIntent
    → Type 0
IsClosing mode r o e is =
    (is ≡ [])
    ⊎ ((t : PostCommitCloseRecord) × (is
          ≡ record { kind = close_civ_after_commit; payload = some (close_target_members t) } ∷ [])
        × (mode ≡ fully_managed)
        × (t.close_requested ≡ false)
        × (IsEntitled r e t)
        × (IsObserved o t))
