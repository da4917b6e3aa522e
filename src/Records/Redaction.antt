-- ===== src/Records/Redaction.antt =====
-- src/agent_control_plane/redaction.py: `redact_run_record` and `redact_replay_bundle`, on copies.
pub mod Hides
pub mod Report
use cognous_agent_control_pl.Base.{
  String, Bool, true, false, Option, none, some, List, [], ◌∷◌, if◌then◌else◌, map, map_option,
  Dict,
}
use cognous_agent_control_pl.Bounded.Models.{Value, boolean}
use cognous_agent_control_pl.Policy.Models.{
  ActionProposal, PolicyRuleEvaluation, PolicyEvaluationTrace, PolicyDecision,
}
use cognous_agent_control_pl.Records.Models.{
  BlockedAction, RunRecord, ReplayBundle, RedactionConfig,
}

abbrev pub marker : Dict Value
marker = ("redacted", boolean true) ∷ []

-- `if redact and text is not None: text = replacement`
abbrev pub hide_optional : Bool → String → Option String → Option String
hide_optional redact replacement o = if redact then map_option (λ _. replacement) o else o

abbrev pub hide : Bool → String → String → String
hide redact replacement s = if redact then replacement else s

module _ (config : RedactionConfig) where
  unfoldable pub redact_action : ActionProposal → ActionProposal
  redact_action a = record a {
    payload = if config.redact_payloads then marker else a.payload;
    target = hide config.redact_targets config.replacement a.target;
    reason = hide_optional config.redact_reasons config.replacement a.reason;
  }

  unfoldable pub redact_decision : PolicyDecision → PolicyDecision
  redact_decision d = record d { reason = hide config.redact_reasons config.replacement d.reason }

  unfoldable pub redact_blocked : BlockedAction → BlockedAction
  redact_blocked b = record b { reason = hide config.redact_reasons config.replacement b.reason }

  unfoldable pub redact_rule : PolicyRuleEvaluation → PolicyRuleEvaluation
  redact_rule r = record r { reason = hide config.redact_reasons config.replacement r.reason }

  unfoldable pub redact_trace : PolicyEvaluationTrace → PolicyEvaluationTrace
  unfolding redact_rule
  redact_trace t = record t { rules_evaluated = map redact_rule t.rules_evaluated }

  -- `redact_run_record`, with a given configuration.
  unfoldable pub redact_run_record : RunRecord → RunRecord
  unfolding redact_action redact_decision redact_blocked redact_trace
  redact_run_record r = record r {
    actions = map redact_action r.actions;
    decisions = map redact_decision r.decisions;
    blocked_actions = map redact_blocked r.blocked_actions;
    policy_traces = map redact_trace r.policy_traces;
    final_output = hide_optional config.redact_final_output config.replacement r.final_output;
  }

  -- `redact_replay_bundle`, with a given configuration.
  unfoldable pub redact_replay_bundle : ReplayBundle → ReplayBundle
  unfolding redact_action redact_decision redact_blocked redact_trace
  redact_replay_bundle b = record b {
    actions = map redact_action b.actions;
    decisions = map redact_decision b.decisions;
    blocked_actions = map redact_blocked b.blocked_actions;
    policy_traces = map redact_trace b.policy_traces;
    final_output = hide_optional config.redact_final_output config.replacement b.final_output;
  }
