-- ===== src/Examples/Recorded.antt =====
-- The theorems of the recorder, the validation, the replay bundle and its signature, run on a note
-- that is written and a message that is blocked.
use cognous_agent_control_pl.Base.{
  String, true, false, some, none, List, [], ◌∷◌, ◌≡◌, ◌↔◌, refl, arith, fstring, eq_iff,
}
use cognous_agent_control_pl.Base.Outcome.{ok}
use cognous_agent_control_pl.Bounded.Documents.{parse}
use cognous_agent_control_pl.Policy.Models.{ActionProposal}
use cognous_agent_control_pl.Policy.Gate.{evaluate_with_trace, canonical_inputs}
use cognous_agent_control_pl.Records.Models.{
  RunRecord, SourceType, ReplayBundle, SignedReplayBundle,
}
use cognous_agent_control_pl.Records.Recorder.{
  RunRecorder, new_recorder, StartCall, start_run, require_started, ProposeCall, RelianceCall,
  record_of, to_run_record,
}
use cognous_agent_control_pl.Records.Recorder.Evaluate.{
  EvaluateCall, RecorderCall, propose, evaluation, reliance, complete, after_calls,
}
use cognous_agent_control_pl.Records.Recorder.Valid.{
  recorder_after, recorded, recorder-IsValid, start_run-keeps_old, generate_replay_bundle-valid,
}
use cognous_agent_control_pl.Records.Replay.{generate_replay_bundle}
use cognous_agent_control_pl.Records.Validation.{
  content_of_record, validate_run_record, validate_replay_bundle,
}
use cognous_agent_control_pl.Records.Validation.Consistent.{
  IsConsistent, validate_run_record-IsConsistent,
}
use cognous_agent_control_pl.Records.Signing.{
  sign_replay_bundle, verify_signed_replay_bundle, IsSignedBy, verify-sign,
}
use cognous_agent_control_pl.Examples.Clock.{unary, read, print}
use cognous_agent_control_pl.Examples.Policies.{by_name}
use cognous_agent_control_pl.Examples.Redacted.{note_run}

abbrev quoted : String → String
quoted s = s

abbrev pub office_run : StartCall
office_run = record {
  task = "close the case";
  actor = "agent";
  environment = "test";
  allowed_tools = "mail" ∷ "notes" ∷ [];
  blocked_tools = "shell" ∷ [];
  policy_version = "1";
  run_uuid = "run-1";
  frame_uuid = "frame-1";
  clock = "T";
}

abbrev mail_proposal : ProposeCall
mail_proposal = record {
  tool_name = "mail";
  action_type = "external_send";
  target = "customer-7";
  payload = none;
  reason = none;
  uuid = "action-1";
  clock = "T";
}

abbrev mail_action : ActionProposal
mail_action = record {
  action_id = "action-1";
  run_id = "run-1";
  tool_name = "mail";
  action_type = "external_send";
  target = "customer-7";
  payload = [];
  proposed_at = "T";
  reason = none;
}

abbrev mail_evaluation : EvaluateCall
mail_evaluation = record {
  action = mail_action;
  include_trace = true;
  now = 3;
  trace_uuid = "trace-1";
  decision_uuid = "decision-1";
  blocked_uuid = "blocked-1";
  clock = "T";
}

abbrev mail_reliance : RelianceCall
mail_reliance = record {
  source_name = "mail";
  source_type = SourceType.tool;
  scope = "address book";
  referenced_action_id = some "action-1";
  uuid = "reliance-1";
  clock = "T";
}

-- The last call is of an action that was not proposed, and raises.
abbrev mail_calls : List RecorderCall
mail_calls =
    propose mail_proposal
    ∷ evaluation mail_evaluation
    ∷ reliance mail_reliance
    ∷ complete (some "done")
    ∷ evaluation (record mail_evaluation { action = record mail_action { action_id = "action-2" } })
    ∷ []

-- The message is blocked and recorded with its trace.
mail_blocked :
    (recorder_after unary by_name office_run mail_calls).blocked_actions
    ≡ record {
      blocked_id = "blocked-1";
      action_id = "action-1";
      run_id = "run-1";
      reason =
          "Action type 'external_send' requires an authority record with scope 'external_send', which was not found.";
      policy_name = "external_send_authority_policy";
      blocked_at = "T";
    }
      ∷ []
unfolding start_run after_calls require_started evaluate_with_trace parse read print
    canonical_inputs
mail_blocked = refl

recorder-IsValid_example :
    (to_run_record (recorder_after unary by_name office_run mail_calls) ≡ (
      ok (recorded unary by_name office_run mail_calls),
      recorder_after unary by_name office_run mail_calls,
    ))
    × ((validate_run_record quoted (recorded unary by_name office_run mail_calls)).valid ≡ true)
unfolding start_run after_calls require_started evaluate_with_trace parse read print
    canonical_inputs record_of
recorder-IsValid_example =
    recorder-IsValid unary by_name quoted office_run mail_calls (tt, tt) (refl, tt)

abbrev used_recorder : RunRecorder
used_recorder = record new_recorder { actions = record mail_action { run_id = "run-0" } ∷ [] }

start_run-keeps_old_example :
    (x : RunRecord) × (to_run_record (start_run office_run used_recorder).1
      ≡ (ok x, (start_run office_run used_recorder).1))
    × (x.run_id ≡ "run-1")
    × (x.actions ≡ used_recorder.actions)
    × ((validate_run_record quoted x).valid ≡ false)
start_run-keeps_old_example =
    start_run-keeps_old quoted office_run used_recorder (record mail_action { run_id = "run-0" }) []
      refl (λ e. ground (arith, eq_iff "run-0" "run-1"))

generate_replay_bundle-valid_example :
    (validate_replay_bundle quoted (generate_replay_bundle "bundle-1" "T" note_run)).valid
    ≡ (validate_run_record quoted note_run).valid
generate_replay_bundle-valid_example = generate_replay_bundle-valid quoted "bundle-1" "T" note_run

validate_run_record-IsConsistent_example :
    ((validate_run_record quoted note_run).valid ≡ true) ↔ IsConsistent (content_of_record note_run)
validate_run_record-IsConsistent_example = validate_run_record-IsConsistent quoted note_run

abbrev by_id : ReplayBundle → String
by_id b = b.replay_bundle_id

abbrev keyed : String → String → String
keyed secret payload = fstring (secret ∷ ":" ∷ payload ∷ [])

abbrev note_bundle : String → ReplayBundle
note_bundle id = record {
  replay_bundle_id = id;
  run_id = note_run.run_id;
  generated_at = "T";
  frame = note_run.frame;
  actions = note_run.actions;
  decisions = note_run.decisions;
  policy_traces = [];
  authority_records = [];
  reliance_records = [];
  blocked_actions = [];
  final_output = some "done";
}

abbrev signed_note : SignedReplayBundle
signed_note =
    record (sign_replay_bundle by_id keyed "signed-1" "T" (note_bundle "bundle-1") "key") {
      signed_at = "Tx";
    }

verify-sign_example :
    ((verify_signed_replay_bundle by_id keyed signed_note "key" ≡ true)
      ↔ IsSignedBy by_id keyed signed_note "key")
    × (IsSignedBy by_id keyed signed_note "key" ↔ (
        signed_note
        ≡ sign_replay_bundle by_id keyed "signed-1" "Tx" (note_bundle "bundle-1") "key"))
unfolding sign_replay_bundle
verify-sign_example = verify-sign by_id keyed signed_note "key"
