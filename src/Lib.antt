-- ===== src/Lib.antt =====
-- The agent control plane: what its bounded authorization-to-effect workflow guarantees.
--
-- The program (src/agent_control_plane/bounded.py) takes a proposal of one operation. `decide`
-- compares it with an Action Manifest and with the current authority that a resolver reports, and
-- persists a decision in a JSON record. `execute` takes a persisted decision, resolves everything
-- again, records a refusal if an input has changed, observes the destination, and dispatches the
-- effect at most once. `reconcile` classifies one observation of the destination.
--
-- Base: Booleans, lists, texts, dictionaries (Base.Dicts) and exceptions (Base.Outcome). A method
-- is an `Exec S A`: from a state to a result, a value or an exception, and the state left behind.
-- A chain of tests that append reasons is a list of `Check`, and `failing` collects the reasons in
-- order, or stops at the first exception.
--
-- Bounded.Models, Bounded.Documents: the pydantic models and the dictionaries of bounded.py, one
-- record for each; `Platform` holds SHA-256 over canonical JSON and the ISO timestamp functions,
-- and `PrintsTime` what is relied on of the latter. Instants are microseconds in ℕ.
-- Bounded.Store: `BoundedRecordStore`; each transaction is one step, since all clients take the
-- same file lock. Bounded.Destination: `LocalRefundDestination`. Bounded.Manifest:
-- `_manifest_mismatches` and `_matching_permission`. Bounded.Status: `_fresh`, `_resolve_role` and
-- the tests of the statuses in `_resolve`. Bounded.Context, Bounded.Resolve: `_resolve`,
-- `_effect_id`.
-- Bounded.Observation: `reconcile` and `_reconcile_observation`. Bounded.Changed:
-- `_effect_time_changed_inputs`. Bounded.Decisions, Bounded.Workflow: `decide` and `execute`, over
-- the two files together (Bounded.World). The modules below each of these prove its theorems, and
-- Examples runs them, mostly on one concrete refund.
--
-- Bounded.Synthetic: `SyntheticResolver`. Policy: `PolicyGate` (src/agent_control_plane/policy_gate.py)
-- over the models of models.py, a separate part that decides on single tool calls by six rules; the
-- bounded workflow does not call it. SHA-256 of its canonical inputs is a parameter.
-- Records: run records (src/agent_control_plane/models.py) and what makes and checks them:
-- Records.Recorder, `RunRecorder` (records.py, frame.py) over the policy gate; Records.Validation,
-- `validate_run_record` and `validate_replay_bundle` (validation.py); Records.Tools,
-- `execute_with_control` (tools.py); Records.Replay and Records.Signing (replay.py, signing.py);
-- Records.Redaction, redaction.py. Python's `repr`, canonical JSON, HMAC and
-- the tool adapter are parameters.
-- LocalAuthority: local_authority_effect.py. A persisted decision of the bounded workflow becomes a
-- claim, which is handed to a local store, a parameter. LocalAuthority.Projections: the validation of
-- the authority snapshot; LocalAuthority.Content: what a claim holds, and its verification;
-- LocalAuthority.Claim: issuing and provisioning. While the
-- hand-off lock is held the resolver answers alike; the commitment of a claim's documents is a
-- parameter.
-- InputProfile: decision_input_profile.py, the verification of a decision-input record, a JSON value
-- that stands alone: nothing else of the program calls it. InputProfile.Verdict: its exception and
-- the helpers that raise it; Obligations, Evidence and Verify: `verify_record` in the order of the
-- code. json.dumps, SHA-256 and datetime.fromisoformat are parameters.
-- MicrosoftAgt: the gate of src/agent_control_plane/microsoft_agt.py, which asks the toolkit and an
-- authority, both parameters, and the backend over the toolkit's SDK.
--
-- Documents conform to their contracts: a key that the code indexes is there, with its type; a key
-- that it reads through `.get` may be missing. `decide` and `execute` are given an aware time.
--
-- There is no fuel: every loop of the program is structural recursion over a list. The readings of
-- clocks and of `uuid.uuid4()` are arguments of the calls. The resolver is an argument of a call
-- and may differ between calls; in one call it answers the same question alike. Inside the workflow
-- the writes of records reach the disk; the store is modelled with all failures of the disk.
-- Amounts are non-negative floats, which the program compares and passes on,
-- and stand by their bit pattern.
-- Not modelled: the JSON codec, the parsing of /proc/self/mountinfo, the command line and the files
-- it reads (cli.py, persistence.py), and policy_config.py and demo_policies.py, which pass fixed or
-- configured values on to `create_frame` and the recorder.
pub mod Base
pub mod Bounded
pub mod Examples
pub mod InputProfile
pub mod LocalAuthority
pub mod MicrosoftAgt
pub mod Policy
pub mod Records
