-- ===== src/MicrosoftAgt/Adapter.antt =====
-- src/agent_control_plane/microsoft_agt.py: `MicrosoftAgtPreToolCallAdapter`. Python's `str.lower`,
-- a table of Unicode, is a parameter.
use cognous_agent_control_pl.Base.{
  ℕ, String, Bool, true, false, Option, none, some, List, [], ◌∷◌, not, ◌==◌, is_empty, get_or,
  map_option, if◌then◌else◌, Dict, strip, fstring, mem,
}
use cognous_agent_control_pl.Base.Outcome.{
  exn_name, Result, ok, raise, Exec, pure, attempting, ◌>>=◌,
}
use cognous_agent_control_pl.Bounded.Models.{
  Value, RuntimeProposal, DecisionResult, RuntimeDecision,
}
use cognous_agent_control_pl.Bounded.Documents.{Platform, Committed}
use cognous_agent_control_pl.MicrosoftAgt.Models.{
  PolicyTarget, mapping, other, AgtDecision, ToolCallRequest, BackendAnswer, answered, unavailable,
  raised, Services, CompatibilityOutcome, MicrosoftAgtCompatibilityResult,
}

-- The arguments of `evaluate`; `tenant_id` is none where it is not a text.
pub record GateCall : Type 0 where
  pub tenant_id : Option String
  pub proposal : RuntimeProposal
  pub tool_name : String
  pub tool_call_id : Option String
  pub snapshot : Option (Dict Value)
  pub now : Option ℕ

unfoldable pub agt_unavailable : String → Option String → AgtDecision
agt_unavailable reason message = record {
  decision = "unavailable";
  reason = some reason;
  message = message;
  transformed_policy_target = other;
  transformed_policy_target_applied = false;
  warnings = [];
  evidence_artefact = none;
  evidence_verification_pointers = [];
  input_identity = none;
  enforced_identity = none;
}

unfoldable pub result_text : DecisionResult → String
result_text DecisionResult.authorized = "authorized"
result_text DecisionResult.hold = "hold"
result_text DecisionResult.deny = "deny"

unfoldable pub request_of : GateCall → String → ToolCallRequest
request_of c tenant = record {
  tenant_id = tenant;
  tool_name = c.tool_name;
  arguments = c.proposal.payload;
  tool_call_id = c.tool_call_id;
  snapshot = get_or [] c.snapshot;
}

module _ (p : Platform) where
  -- `commitment(proposal.model_dump(mode="json", exclude_none=False))`
  abbrev pub committed : RuntimeProposal → String
  committed q = p.commitment (Committed.proposal q)

  -- `model_copy` with the transformed payload and its commitment.
  unfoldable pub transformed_proposal : RuntimeProposal → Dict Value → RuntimeProposal
  transformed_proposal q target = record q {
    payload = target;
    payload_commitment = p.commitment (Committed.payload target);
  }

  -- `_finish`
  unfoldable pub finish :
      GateCall
      → String
      → AgtDecision
      → CompatibilityOutcome
      → Option RuntimeProposal
      → Option RuntimeDecision
      → Bool
      → List String
      → MicrosoftAgtCompatibilityResult
  finish c tenant agt result proposal cognous transformed reasons = record {
    result = result;
    proposal = proposal;
    cognous_decision = cognous;
    evidence = record {
      profile = "microsoft-agt-pre-tool-call/0.1";
      upstream_revision = "84ae67348705996a3d65e31936afb7d02853f2a0";
      source = "microsoft/agent-governance-toolkit";
      tenant_id = tenant;
      tool_name = c.tool_name;
      tool_call_id = c.tool_call_id;
      agt_decision = agt.decision;
      agt_reason = agt.reason;
      agt_message = agt.message;
      agt_warnings = agt.warnings;
      agt_input_identity = agt.input_identity;
      agt_enforced_identity = agt.enforced_identity;
      agt_evidence_artefact = agt.evidence_artefact;
      agt_evidence_verification_pointers = agt.evidence_verification_pointers;
      original_proposal_commitment = committed c.proposal;
      effective_proposal_commitment = map_option committed proposal;
      transformed = transformed;
      cognous_decision_id = map_option (λ d. d.decision_id) cognous;
      cognous_result = map_option (λ d. d.result) cognous;
      limitation =
          "AGT is an additional restriction only. Cognous authorization is independent; AGT evidence/telemetry is not Cognous authority.";
    };
    reasons = reasons;
  }

  -- `tuple(cognous.reasons) or (f"cognous_{cognous.result}",)`
  unfoldable pub authority_reasons : RuntimeDecision → List String
  unfolding result_text
  authority_reasons d =
      if is_empty d.reasons
      then fstring ("cognous_" ∷ result_text d.result ∷ []) ∷ []
      else d.reasons

  -- From the decision of the authority, with its `result` as the last argument.
  unfoldable pub conclude_decision :
      GateCall
      → String
      → AgtDecision
      → RuntimeProposal
      → Bool
      → RuntimeDecision
      → DecisionResult
      → MicrosoftAgtCompatibilityResult
  unfolding finish authority_reasons
  conclude_decision c tenant agt effective transformed d DecisionResult.authorized =
      finish c tenant agt CompatibilityOutcome.authorized (some effective) (some d) transformed []
  conclude_decision c tenant agt effective transformed d DecisionResult.deny =
      finish c tenant agt CompatibilityOutcome.deny (some effective) (some d) transformed
        (authority_reasons d)
  conclude_decision c tenant agt effective transformed d DecisionResult.hold =
      finish c tenant agt CompatibilityOutcome.hold (some effective) (some d) transformed
        (authority_reasons d)

  -- From what the authority returned or raised for the effective proposal.
  unfoldable pub conclude_gate :
      GateCall
      → String
      → AgtDecision
      → RuntimeProposal
      → Bool
      → Result RuntimeDecision
      → MicrosoftAgtCompatibilityResult
  unfolding finish conclude_decision
  conclude_gate c tenant agt effective transformed (raise e) =
      finish c tenant agt CompatibilityOutcome.error (some effective) none transformed
        (fstring ("cognous_evaluation_error:" ∷ exn_name e.kind ∷ []) ∷ [])
  conclude_gate c tenant agt effective transformed (ok d) =
      conclude_decision c tenant agt effective transformed d d.result

  -- A result that stops before the authority is asked.
  unfoldable pub stop :
      GateCall
      → String
      → AgtDecision
      → CompatibilityOutcome
      → String
      → MicrosoftAgtCompatibilityResult
  unfolding finish
  stop c tenant agt result reason = finish c tenant agt result none none false (reason ∷ [])

  module _ {W : Type 0} (services : Services W) (lower : String → String) (c : GateCall) where
    unfoldable pub ask_authority :
        String → AgtDecision → RuntimeProposal → Bool → Exec W MicrosoftAgtCompatibilityResult
    unfolding conclude_gate
    ask_authority tenant agt effective transformed = do
      judged ← attempting (services.authorize effective tenant c.now)
      pure (conclude_gate c tenant agt effective transformed judged)

    unfoldable pub transform :
        String → AgtDecision → Bool → PolicyTarget → Exec W MicrosoftAgtCompatibilityResult
    unfolding ask_authority transformed_proposal stop
    transform tenant agt true (mapping target) =
        ask_authority tenant agt (transformed_proposal c.proposal target) true
    transform tenant agt _ _ =
        pure (stop c tenant agt CompatibilityOutcome.hold "unsupported_transform_response")

    -- From the toolkit's decision, in lower case and stripped.
    unfoldable pub after_agt :
        String → AgtDecision → String → Exec W MicrosoftAgtCompatibilityResult
    unfolding ask_authority transform stop
    after_agt tenant agt decision =
        if not (is_empty agt.warnings)
        then pure (stop c tenant agt CompatibilityOutcome.hold "agt_warning_requires_review")
        else (if mem decision ("deny" ∷ "escalate" ∷ "warn" ∷ [])
            then pure (
                stop c tenant agt
                  (if decision == "deny"
                    then CompatibilityOutcome.deny
                    else CompatibilityOutcome.hold)
                  (fstring ("agt_" ∷ decision ∷ [])))
            else (if decision == "transform"
                then transform tenant agt agt.transformed_policy_target_applied
                    agt.transformed_policy_target
                else (if not (decision == "allow")
                    then pure
                        (stop c tenant agt CompatibilityOutcome.hold "unsupported_agt_decision")
                    else ask_authority tenant agt c.proposal false)))

    unfoldable pub after_backend : String → BackendAnswer → Exec W MicrosoftAgtCompatibilityResult
    unfolding after_agt stop agt_unavailable
    after_backend tenant (answered agt) = after_agt tenant agt (strip (lower agt.decision))
    after_backend tenant (unavailable message) = pure (
        stop c tenant (agt_unavailable "backend_unavailable" (some message))
          CompatibilityOutcome.hold "capability_unavailable")
    after_backend tenant (raised e) = λ w. (raise e, w)

    -- `tenant_id.strip() if isinstance(tenant_id, str) else ""`
    abbrev pub tenant_of : Option String → String
    tenant_of none = ""
    tenant_of (some s) = strip s

    -- `MicrosoftAgtPreToolCallAdapter.evaluate`
    unfoldable pub gate : Exec W MicrosoftAgtCompatibilityResult
    unfolding after_backend stop agt_unavailable request_of
    gate w =
        let tenant = tenant_of c.tenant_id in
        if tenant == ""
        then pure
            (stop c "" (agt_unavailable "tenant_missing" none) CompatibilityOutcome.hold
              "tenant_missing")
            w
        else (let (answer, w') = services.evaluate_pre_tool_call (request_of c tenant) w in
            after_backend tenant answer w')
