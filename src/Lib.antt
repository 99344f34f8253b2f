-- ===== src/Lib.antt =====
-- civ4-turn-relay: players of a Civilization IV match pass a save file on through a shared
-- remote storage. This library models the protocol that every client runs against that storage,
-- in src/civ4_turn_relay/domain, protocol and storage, and what a client keeps and decides on
-- its own machine, in local and process of the same package.
--
-- Parts and files.
-- Prelude: texts and bytes as lists of numbers, dictionaries as association lists, Option with
-- do blocks.
-- Domain/Ids, Domain/Paths: the validators of domain/ids.py and domain/paths.py, as tests: true
-- is a return, false a raise of DomainValidationError.
-- Domain/Json, Domain/Serialization: the values of json and the strict readers of
-- domain/serialization.py.
-- Domain/Manifest: domain/manifest.py, the constructors' validations; Manifest/Codec has
-- to_mapping and from_mapping, Manifest/RoundTrip, Manifest/Validity and Manifest/WellFormed
-- their theorems.
-- Domain/Config: the match's configuration of domain/config.py and the states of
-- domain/states.py.
-- Domain/Libraries: hashlib, json, re's digits, datetime and pathlib are parameters, the fields
-- of one record; the hypotheses on them are that json.loads reads back what json.dumps wrote
-- and, in one theorem, that on the bytes of the manifest it raises nothing but JSONDecodeError,
-- which is all that the readers catch.
-- Storage/Port: the protocol class of storage/port.py as a record of operations over any state;
-- an operation returns a reply, a value or the error raised, and the new state. Storage/Laws:
-- what a client may assume of an adapter.
-- Storage/Faults, Storage/Snapshot, Storage/Fake: storage/faults.py and storage/fake.py, every
-- operation with its injected faults. Storage/Fake/Laws: it as an instance of the laws.
-- Storage/Verification: compare_stored_object of storage/verification.py.
-- Protocol/Action: the functions of the protocol as state passing over the storage and the
-- journal, with no result for a raise; the handlers of a try are functions of the reply.
-- Action/Keeps and Action/Ensures have one rule for each way to build an action.
-- Protocol/Paths, Players, Classify, Journal, ManifestAccess: the modules of the same names in
-- protocol/ (hash_classify.py for Classify).
-- Protocol/Lock: protocol/lock.py, with Document, Inspect, Acquire, Release and Repair;
-- Observes, Keeps, Effect, Exclusive, Progress, Recorded and RepairKeeps have the proofs.
-- Protocol/Handoff: protocol/handoff.py. Request has the data, Plan the paths and the next
-- manifest, Stage the upload and the publication, Archive the history, Owned _run_owned_handoff
-- and _reconcile_uncertain_commit, Cleanup _apply_cleanup, Commit commit_handoff. Each function
-- there is what the source does from one storage call up to the next. Unlocked is about a run
-- without the lock. Effect has the specification of a handoff's effect on the manifest, and its
-- children the proofs.
-- Protocol/Initialize, Protocol/Download: protocol/initialize.py and protocol/download.py;
-- Initialize/Zero, Initialize/Fresh, Download/Quiet and Download/Sound have the proofs.
-- Protocol/Temporary: protocol/cleanup.py, with Candidates for the paths and the protection and
-- Cleanup for the removal; Contained, Removal and Items have the proofs.
-- Local/Records: local/records.py, with Types for the data and validations, Mappings for what
-- is written, Reading, Members and Whole for what is read; MemberRoundTrip, MemberLaws,
-- RoundTrip and Json have the proofs.
-- Local/Journal: local/journal.py and the state of one match in local/store.py, over the
-- content of one file; Refines compares it with the in-memory journal, by the lemmas of Agreed
-- and Returns.
-- Local/Evidence: local/handoff_evidence.py; Exact has the attribution of a result, Successor
-- and Recovery that of the journal after a handoff (with the arguments that local/reconcile.py
-- passes).
-- Local/Orchestrate: decide_intents of local/orchestrate.py, a function of the records, the
-- detection, the observed process and the evidence; Start, Rule and Close have the proofs.
-- Local/Detect: local/detect.py, with Types, Samples for the observations kept and Observe for
-- the scan of a directory, over the answers of the file system; New has the test of a new
-- candidate, Merge and Excluded the proofs.
-- Process/Guard: process/guard.py and the results of process/port.py. Scan is about the
-- classification of processes, Trace about what a guarded launch asks in which order.
-- Tests: a concrete match, with the clients' records and decisions.
--
-- Bounds. Numbers are natural; Python's integers do not overflow, and a negative number in a
-- document is refused. No function here has fuel but the decimal digits of Protocol/Paths,
-- which is one more than the number; each digit divides it by ten.
--
-- Not modelled: messages and field paths of errors, isinstance tests of Python's types, the
-- checks of result constructors that the functions cannot violate, the parsing of the
-- environment and of a configuration's JSON, redaction, the Paramiko adapter, the store's other
-- files, the promotion of a download, the rest of the reconciliation of the local records with
-- the manifest, revalidate_candidate_file, the adapters to the operating system, the
-- application and the interface. Floats, the comparison of times, ntpath and casefold and the
-- answers of the file system and of the process adapters are parameters. Time is an argument of
-- the operations. A TypeError for a wrong argument is out of the model.
pub mod Prelude
pub mod Domain
pub mod Storage
pub mod Protocol
pub mod Local
pub mod Process
pub mod Tests
