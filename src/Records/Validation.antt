-- ===== src/Records/Validation.antt =====
-- src/agent_control_plane/validation.py: the checks of run records and replay bundles. Python's
-- `repr` of a text, which only the messages show, is a parameter.
pub mod Errors
pub mod Consistent
use cognous_agent_control_pl.Base.{
  ℕ, zero, suc, ◌+◌, String, Bool, true, false, Option, none, some, List, [], ◌∷◌, ◌++◌, ◌||◌, ◌&&◌,
  not, ◌==◌, any, mem, is_none, get_or, if◌then◌else◌, Dict, get, put, map, fstring, decimal,
}
use cognous_agent_control_pl.Policy.Models.{
  ActionProposal, PolicyEvaluationTrace, PolicyDecision, AuthorityRecord,
}
use cognous_agent_control_pl.Records.Models.{
  BlockedAction, RelianceRecord, RunRecord, ReplayBundle, Severity, error, warning, ValidationIssue,
  CheckedType, ValidationReport,
}
use cognous_agent_control_pl.Records.Recorder.Evaluate.{is_block}

-- The arguments of `_validate_run_consistency`.
pub record RunContent : Type 0 where
  pub run_id : String
  pub frame_actor : String
  pub actions : List ActionProposal
  pub decisions : List PolicyDecision
  pub blocked_actions : List BlockedAction
  pub reliance_records : List RelianceRecord
  pub authority_records : List AuthorityRecord
  pub policy_traces : List PolicyEvaluationTrace

-- A call of `_ValidationCollector.error` or `.warning` under a test.
unfoldable pub collect : Severity → Bool → String → String → String → List ValidationIssue
collect severity false code message path = []
collect severity true code message path =
    record { severity = severity; code = code; message = message; path = some path } ∷ []

unfoldable pub is_error : ValidationIssue → Bool
is_error i = elim i.severity [ error ↦ true | warning ↦ false ]

-- `for index, x in enumerate(xs)`, with what each round appends.
unfoldable pub enumerate :
    {A : Type 0} → (String → A → List ValidationIssue) → ℕ → List A → List ValidationIssue
enumerate f n [] = []
enumerate f n (x ∷ xs) = f (decimal n) x ++ enumerate f (suc n) xs

-- `{action.action_id for action in actions}`
abbrev pub action_ids : List ActionProposal → List String
action_ids = map (λ a. a.action_id)

-- `decision_by_action`, one round
unfoldable pub group_decision :
    PolicyDecision → Dict (List PolicyDecision) → Dict (List PolicyDecision)
group_decision d groups = put d.action_id (get_or [] (get d.action_id groups) ++ d ∷ []) groups

unfoldable pub group_decisions :
    Dict (List PolicyDecision) → List PolicyDecision → Dict (List PolicyDecision)
unfolding group_decision
group_decisions groups [] = groups
group_decisions groups (d ∷ ds) = group_decisions (group_decision d groups) ds

-- `{trace.trace_id: trace for trace in policy_traces}`
unfoldable pub traces_by_id :
    Dict PolicyEvaluationTrace → List PolicyEvaluationTrace → Dict PolicyEvaluationTrace
traces_by_id known [] = known
traces_by_id known (t ∷ ts) = traces_by_id (put t.trace_id t known) ts

module _ (repr : String → String) (c : RunContent) where
  abbrev place : String → String → String → String
  place list index field = fstring (list ∷ "[" ∷ index ∷ "]" ∷ field ∷ [])

  -- `f"{what} {id} has run_id {run_id!r}, expected {expected!r}."`
  abbrev other_run : String → String → String → String
  other_run what id run_id =
      fstring
        (what ∷ " " ∷ id ∷ " has run_id " ∷ repr run_id ∷ ", expected " ∷ repr c.run_id ∷ "." ∷ [])

  -- `f"{what} {id} references unknown {kind} {ref!r}."`
  abbrev unknown_ref : String → String → String → String → String
  unknown_ref what id kind ref =
      fstring (what ∷ " " ∷ id ∷ " references unknown " ∷ kind ∷ " " ∷ repr ref ∷ "." ∷ [])

  abbrev differs : String → Bool
  differs run_id = not (run_id == c.run_id)

  abbrev unknown_action : String → Bool
  unknown_action id = not (mem id (action_ids c.actions))

  unfoldable pub action_issues : String → ActionProposal → List ValidationIssue
  unfolding collect
  action_issues i a =
      collect error (differs a.run_id) "action_run_id_mismatch"
        (other_run "Action" a.action_id a.run_id) (place "actions" i ".run_id")

  -- The test of the trace that a decision names, and of the one found under it.
  unfoldable pub trace_issues :
      String → PolicyDecision → Option String → Option PolicyEvaluationTrace → List ValidationIssue
  unfolding collect
  trace_issues i d none found = []
  trace_issues i d (some id) none =
      collect error true "decision_trace_missing"
        (unknown_ref "Policy decision" d.decision_id "trace" id) (place "decisions" i ".trace_id")
  trace_issues i d (some id) (some t) =
      collect error (not (t.deterministic_fingerprint == d.deterministic_fingerprint))
        "decision_trace_fingerprint_mismatch"
        "Policy decision and referenced evaluation trace have different deterministic fingerprints."
        (place "decisions" i ".trace_id")

  abbrev pub named_trace : Option String → Option PolicyEvaluationTrace
  named_trace none = none
  named_trace (some id) = get id (traces_by_id [] c.policy_traces)

  unfoldable pub decision_issues : String → PolicyDecision → List ValidationIssue
  unfolding collect trace_issues traces_by_id
  decision_issues i d =
      collect error (differs d.run_id) "decision_run_id_mismatch"
        (other_run "Policy decision" d.decision_id d.run_id) (place "decisions" i ".run_id")
      ++ (collect error (unknown_action d.action_id) "decision_action_missing"
            (unknown_ref "Policy decision" d.decision_id "action" d.action_id)
            (place "decisions" i ".action_id")
          ++ trace_issues i d d.trace_id (named_trace d.trace_id))

  unfoldable pub blocked_issues : String → BlockedAction → List ValidationIssue
  unfolding collect group_decisions is_block
  blocked_issues i b =
      collect error (differs b.run_id) "blocked_action_run_id_mismatch"
        (other_run "Blocked action" b.blocked_id b.run_id) (place "blocked_actions" i ".run_id")
      ++ (collect error (unknown_action b.action_id) "blocked_action_missing_action"
            (unknown_ref "Blocked action" b.blocked_id "action" b.action_id)
            (place "blocked_actions" i ".action_id")
          ++ collect error
              (not (
                any (λ d. is_block d.result)
                  (get_or [] (get b.action_id (group_decisions [] c.decisions)))))
              "blocked_action_without_block_decision"
              (fstring (
                "Blocked action " ∷ b.blocked_id
                ∷ " does not correspond to a block policy decision." ∷ []))
              (place "blocked_actions" i ""))

  -- `referenced_action_id is not None and … not in action_ids`
  abbrev pub unknown_reference : Option String → Bool
  unknown_reference none = false
  unknown_reference (some id) = unknown_action id

  unfoldable pub reliance_issues : String → RelianceRecord → List ValidationIssue
  unfolding collect
  reliance_issues i x =
      collect error (differs x.run_id) "reliance_run_id_mismatch"
        (other_run "Reliance record" x.reliance_id x.run_id) (place "reliance_records" i ".run_id")
      ++ collect error (unknown_reference x.referenced_action_id) "reliance_action_missing"
          (unknown_ref "Reliance record" x.reliance_id "action" (get_or "" x.referenced_action_id))
          (place "reliance_records" i ".referenced_action_id")

  unfoldable pub authority_issues : String → AuthorityRecord → List ValidationIssue
  unfolding collect
  authority_issues i x =
      collect error (differs x.run_id) "authority_run_id_mismatch"
        (other_run "Authority record" x.authority_id x.run_id)
        (place "authority_records" i ".run_id")
      ++ collect warning (not (x.actor == c.frame_actor)) "authority_actor_mismatch"
          (fstring (
            "Authority record "
            ∷ x.authority_id
            ∷ " actor "
            ∷ repr x.actor
            ∷ " does not match frame actor "
            ∷ repr c.frame_actor
            ∷ "."
            ∷ []))
          (place "authority_records" i ".actor")

  unfoldable pub policy_trace_issues : String → PolicyEvaluationTrace → List ValidationIssue
  unfolding collect
  policy_trace_issues i t =
      collect error (differs t.run_id) "policy_trace_run_id_mismatch"
        (other_run "Policy evaluation trace" t.trace_id t.run_id)
        (place "policy_traces" i ".run_id")
      ++ collect error (unknown_action t.action_id) "policy_trace_action_missing"
          (unknown_ref "Policy evaluation trace" t.trace_id "action" t.action_id)
          (place "policy_traces" i ".action_id")

  -- `_validate_run_consistency`: the issues that it collects, in order.
  unfoldable pub consistency_issues : List ValidationIssue
  unfolding enumerate action_issues decision_issues blocked_issues reliance_issues authority_issues
      policy_trace_issues
  consistency_issues =
      enumerate action_issues 0 c.actions
      ++ (enumerate decision_issues 0 c.decisions
          ++ (enumerate blocked_issues 0 c.blocked_actions
              ++ (enumerate reliance_issues 0 c.reliance_records
                  ++ (enumerate authority_issues 0 c.authority_records
                      ++ enumerate policy_trace_issues 0 c.policy_traces))))

-- `_ValidationCollector.report`
unfoldable pub report : CheckedType → String → List ValidationIssue → ValidationReport
unfolding is_error
report kind id issues = record {
  valid = not (any is_error issues);
  checked_object_type = kind;
  checked_id = id;
  issues = issues;
}

abbrev pub content_of_record : RunRecord → RunContent
content_of_record r = record {
  run_id = r.run_id;
  frame_actor = r.frame.actor;
  actions = r.actions;
  decisions = r.decisions;
  blocked_actions = r.blocked_actions;
  reliance_records = r.reliance_records;
  authority_records = r.authority_records;
  policy_traces = r.policy_traces;
}

abbrev pub content_of_bundle : ReplayBundle → RunContent
content_of_bundle b = record {
  run_id = b.run_id;
  frame_actor = b.frame.actor;
  actions = b.actions;
  decisions = b.decisions;
  blocked_actions = b.blocked_actions;
  reliance_records = b.reliance_records;
  authority_records = b.authority_records;
  policy_traces = b.policy_traces;
}

module _ (repr : String → String) where
  unfoldable pub validate_run_record : RunRecord → ValidationReport
  unfolding report consistency_issues collect
  validate_run_record r = report CheckedType.run_record r.run_id (
      consistency_issues repr (content_of_record r)
      ++ collect warning (r.completed && is_none r.final_output)
          "completed_run_missing_final_output" "Completed run record has no final_output."
          "final_output")

  unfoldable pub validate_replay_bundle : ReplayBundle → ValidationReport
  unfolding report consistency_issues collect
  validate_replay_bundle b = report CheckedType.replay_bundle b.replay_bundle_id (
      consistency_issues repr (content_of_bundle b)
      ++ collect warning (is_none b.final_output) "replay_missing_final_output"
          "Replay bundle has no final_output." "final_output")
