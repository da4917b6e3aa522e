-- ===== src/Examples/Redacted.antt =====
-- The redaction theorems, run on a record with one action and one decision.
use cognous_agent_control_pl.Base.{String, true, false, some, none, [], ◌∷◌, ◌≡◌, All, map, fstring}
use cognous_agent_control_pl.Policy.Models.{
  PolicyDecision, PolicyEvaluationTrace, PolicyRuleEvaluation,
}
use cognous_agent_control_pl.Records.Models.{
  BlockedAction, RunRecord, ReplayBundle, RedactionConfig,
}
use cognous_agent_control_pl.Records.Replay.{generate_replay_bundle}
use cognous_agent_control_pl.Records.Validation.{validate_run_record, validate_replay_bundle}
use cognous_agent_control_pl.Records.Redaction.{redact_run_record, redact_replay_bundle}
use cognous_agent_control_pl.Records.Redaction.Report.{validate_run_record-redact_run_record}
use cognous_agent_control_pl.Records.Redaction.Hides.{
  IsHidden, outcome, action_name, redact_run_record-IsHidden,
}
use cognous_agent_control_pl.Examples.Policies.{office_frame, write_note, note_allowed}

abbrev pub note_run : RunRecord
note_run = record {
  run_id = "run-1";
  task = "close the case";
  created_at = "T";
  frame = office_frame;
  actions = record write_note { reason = some "the customer asked" } ∷ [];
  decisions = note_allowed ∷ [];
  policy_traces = [];
  authority_records = [];
  reliance_records = [];
  blocked_actions = [];
  completed = true;
  final_output = some "done";
  replay_bundle_id = none;
}

abbrev note_bundle : ReplayBundle
note_bundle = generate_replay_bundle "bundle-1" "T" note_run

abbrev quotes : String → String
quotes s = fstring ("'" ∷ s ∷ "'" ∷ [])

abbrev hide_reasons : RedactionConfig
hide_reasons = record {
  redact_payloads = true;
  redact_targets = false;
  redact_final_output = true;
  redact_reasons = true;
  replacement = "[REDACTED]";
}

validate_run_record-redact_run_record_example :
    (validate_run_record quotes (redact_run_record hide_reasons note_run)
      ≡ validate_run_record quotes note_run)
    × (validate_replay_bundle quotes (redact_replay_bundle hide_reasons note_bundle)
        ≡ validate_replay_bundle quotes note_bundle)
    × (generate_replay_bundle "bundle-1" "T" (redact_run_record hide_reasons note_run)
        ≡ redact_replay_bundle hide_reasons note_bundle)
validate_run_record-redact_run_record_example =
    validate_run_record-redact_run_record quotes hide_reasons note_run note_bundle "bundle-1" "T"

redact_run_record-IsHidden_example :
    All (IsHidden hide_reasons) (redact_run_record hide_reasons note_run).actions
    × All
        (λ (d : PolicyDecision).
          hide_reasons.redact_reasons ≡ true → d.reason ≡ hide_reasons.replacement)
        (redact_run_record hide_reasons note_run).decisions
    × All
        (λ (b : BlockedAction).
          hide_reasons.redact_reasons ≡ true → b.reason ≡ hide_reasons.replacement)
        (redact_run_record hide_reasons note_run).blocked_actions
    × All
        (λ (t : PolicyEvaluationTrace).
          All
            (λ (x : PolicyRuleEvaluation).
              hide_reasons.redact_reasons ≡ true → x.reason ≡ hide_reasons.replacement)
            t.rules_evaluated)
        (redact_run_record hide_reasons note_run).policy_traces
    × (hide_reasons.redact_final_output ≡ true
        → (t : String) → (redact_run_record hide_reasons note_run).final_output ≡ some t
        → t ≡ hide_reasons.replacement)
    × (map outcome (redact_run_record hide_reasons note_run).decisions
        ≡ map outcome note_run.decisions)
    × (map action_name (redact_run_record hide_reasons note_run).actions
        ≡ map action_name note_run.actions)
redact_run_record-IsHidden_example = redact_run_record-IsHidden hide_reasons note_run
