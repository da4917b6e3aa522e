-- ===== src/Policy/Gate.antt =====
-- src/agent_control_plane/policy_gate.py: `PolicyGate`. Its evaluation time is an aware instant, what
-- `_parse_time(now)` or `_now_utc()` gives; the identifiers that it draws are arguments.
use cognous_agent_control_pl.Base.{
  ℕ, String, Bool, true, false, Option, none, some, List, [], ◌∷◌, ◌++◌, leb, not, mem, ◌==◌,
  fstring, sorted, sorted_set, if◌then◌else◌, Dict,
}
use cognous_agent_control_pl.Base.Outcome.{Exn, runtime_error, Result, ok, raise, bind}
use cognous_agent_control_pl.Bounded.Models.{Value}
use cognous_agent_control_pl.Bounded.Documents.{Platform, parse}
use cognous_agent_control_pl.Policy.Models.{
  Frame, ActionProposal, PolicyResult, reached, not_reached, PolicyRuleEvaluation,
  PolicyEvaluationTrace, PolicyDecision, AuthorityRecord,
}

-- One entry of the list in `_apply_rules`.
pub record Rule : Type 0 where
  pub rule_name : String
  pub matched : Bool
  pub result : PolicyResult
  pub reason : String

unfoldable pub rules : ActionProposal → Frame → List String → List Rule
rules a f scopes =
    record {
      rule_name = "blocked_tool_policy";
      matched = mem a.tool_name f.blocked_tools;
      result = PolicyResult.block;
      reason = fstring ("Tool '" ∷ a.tool_name ∷ "' is explicitly blocked in this frame." ∷ []);
    }
    ∷ record {
      rule_name = "unknown_tool_policy";
      matched = not (mem a.tool_name f.allowed_tools);
      result = PolicyResult.escalate;
      reason = fstring (
          "Tool '" ∷ a.tool_name ∷ "' is not in the allowed-tools list and requires manual review."
          ∷ []);
    }
    ∷ record {
      rule_name = "external_send_authority_policy";
      matched = a.action_type == "external_send";
      result = if mem "external_send" scopes then PolicyResult.allow else PolicyResult.block;
      reason =
          if mem "external_send" scopes
          then "Authority for 'external_send' is present; action allowed."
          else "Action type 'external_send' requires an authority record with scope 'external_send', which was not found.";
    }
    ∷ record {
      rule_name = "read_allowed_tool_policy";
      matched = a.action_type == "read";
      result = PolicyResult.allow;
      reason = fstring ("Tool '" ∷ a.tool_name ∷ "' is allowed and action type is 'read'." ∷ []);
    }
    ∷ record {
      rule_name = "write_authority_policy";
      matched = a.action_type == "write";
      result = if mem "write" scopes then PolicyResult.allow else PolicyResult.escalate;
      reason =
          if mem "write" scopes
          then "Authority for 'write' is present; action allowed."
          else "Action type 'write' requires an authority record with scope 'write', which was not found; escalating for review.";
    }
    ∷ record {
      rule_name = "default_escalation_policy";
      matched = true;
      result = PolicyResult.escalate;
      reason = fstring (
          "Action type '" ∷ a.action_type
          ∷ "' does not match any explicit allow or block rule; escalating for review." ∷ []);
    }
    ∷ []

unfoldable pub evaluated : Rule → PolicyRuleEvaluation
evaluated r =
    if r.matched
    then record {
      rule_name = r.rule_name;
      matched = true;
      result = reached r.result;
      reason = r.reason;
    }
    else record {
      rule_name = r.rule_name;
      matched = false;
      result = not_reached;
      reason = fstring ("Rule '" ∷ r.rule_name ∷ "' did not match this action." ∷ []);
    }

-- What `_apply_rules` returns.
pub record Verdict : Type 0 where
  pub result : PolicyResult
  pub policy_name : String
  pub reason : String
  pub trace_rules : List PolicyRuleEvaluation

abbrev no_decision : Exn
no_decision = record {
  kind = runtime_error;
  message = "Policy rule evaluation did not produce a decision.";
}

-- The loop of `_apply_rules`, with the trace so far.
unfoldable pub first_match : List PolicyRuleEvaluation → List Rule → Result Verdict
first_match trace [] = raise no_decision
first_match trace (r ∷ rs) =
    let rest = first_match (trace ++ evaluated r ∷ []) rs in
    if r.matched
    then ok (record {
      result = r.result;
      policy_name = r.rule_name;
      reason = r.reason;
      trace_rules = trace ++ evaluated r ∷ [];
    })
    else rest

-- `_apply_rules`
unfoldable pub apply_rules : ActionProposal → Frame → List String → Result Verdict
unfolding rules first_match evaluated
apply_rules a f scopes = first_match [] (rules a f scopes)

-- The canonical object that `_fingerprint` hashes.
pub record Canonical : Type 0 where
  pub tool_name : String
  pub action_type : String
  pub target : String
  pub payload : Dict Value
  pub allowed_tools : List String
  pub blocked_tools : List String
  pub policy_version : String
  pub authority_scopes : List String

unfoldable pub canonical_inputs : ActionProposal → Frame → List String → Canonical
canonical_inputs a f scopes = record {
  tool_name = a.tool_name;
  action_type = a.action_type;
  target = a.target;
  payload = a.payload;
  allowed_tools = sorted f.allowed_tools;
  blocked_tools = sorted f.blocked_tools;
  policy_version = f.policy_version;
  authority_scopes = sorted_set scopes;
}

module _ (p : Platform) (sha256 : Canonical → String) where
  unfoldable pub expired : Option String → ℕ → Result Bool
  expired none now = ok false
  expired (some value) now = bind (parse p value) (λ t. ok (leb t now))

  -- The body of the loop in `_active_authority_scopes`: the scopes that a record adds.
  unfoldable pub scopes_of : ActionProposal → Frame → ℕ → AuthorityRecord → Result (List String)
  unfolding expired
  scopes_of a f now r =
      if not (r.run_id == a.run_id)
      then ok []
      else (if not (r.actor == f.actor)
          then ok []
          else bind (expired r.expires_at now) (λ gone. ok (if gone then [] else r.scope)))

  -- `_active_authority_scopes`, a set as a list of its members.
  unfoldable pub active_scopes :
      ActionProposal → Frame → ℕ → List AuthorityRecord → Result (List String)
  unfolding scopes_of
  active_scopes a f now [] = ok []
  active_scopes a f now (r ∷ rs) =
      bind (scopes_of a f now r)
        (λ here. bind (active_scopes a f now rs) (λ later. ok (here ++ later)))

  unfoldable pub decision_of :
      ActionProposal → Frame → ℕ → List String → String → Option String → Verdict → PolicyDecision
  decision_of a f now scopes decision_id trace_id v = record {
    decision_id = decision_id;
    action_id = a.action_id;
    run_id = a.run_id;
    result = v.result;
    policy_name = v.policy_name;
    reason = v.reason;
    decided_at = p.isoformat now;
    deterministic_fingerprint = sha256 (canonical_inputs a f scopes);
    trace_id = trace_id;
  }

  -- `evaluate`
  unfoldable pub evaluate :
      ActionProposal → Frame → List AuthorityRecord → ℕ → String → Result PolicyDecision
  unfolding active_scopes apply_rules decision_of
  evaluate a f records now decision_id = bind (active_scopes a f now records) (λ scopes.
      bind (apply_rules a f scopes) (λ v. ok (decision_of a f now scopes decision_id none v)))

  unfoldable pub trace_of :
      ActionProposal → Frame → ℕ → List String → String → Verdict → PolicyEvaluationTrace
  trace_of a f now scopes trace_id v = record {
    trace_id = trace_id;
    run_id = a.run_id;
    action_id = a.action_id;
    evaluated_at = p.isoformat now;
    rules_evaluated = v.trace_rules;
    final_result = v.result;
    deterministic_fingerprint = sha256 (canonical_inputs a f scopes);
  }

  -- `evaluate_with_trace`
  unfoldable pub evaluate_with_trace :
      ActionProposal
      → Frame
      → List AuthorityRecord
      → ℕ
      → String
      → String
      → Result (PolicyDecision × PolicyEvaluationTrace)
  unfolding active_scopes apply_rules decision_of trace_of
  evaluate_with_trace a f records now trace_id decision_id =
      bind (active_scopes a f now records) (λ scopes. bind (apply_rules a f scopes) (λ v. ok (
        decision_of a f now scopes decision_id (some trace_id) v,
        trace_of a f now scopes trace_id v,
      )))
