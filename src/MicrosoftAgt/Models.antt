-- ===== src/MicrosoftAgt/Models.antt =====
-- src/agent_control_plane/microsoft_agt.py: decisions of the toolkit, compatibility evidence and
-- results, and the two protocols that the adapter is given.
use cognous_agent_control_pl.Base.{ℕ, String, Bool, Option, List, Dict}
use cognous_agent_control_pl.Base.Outcome.{Exn, Exec}
use cognous_agent_control_pl.Bounded.Models.{
  Value, RuntimeProposal, DecisionResult, RuntimeDecision,
}

-- A transformed policy target: a Mapping, or anything else, None included.
pub data PolicyTarget : Type 0 where
  mapping : Dict Value → PolicyTarget
  other : PolicyTarget

pub record AgtDecision : Type 0 where
  pub decision : String
  pub reason : Option String
  pub message : Option String
  pub transformed_policy_target : PolicyTarget
  pub transformed_policy_target_applied : Bool
  pub warnings : List (Dict Value)
  pub evidence_artefact : Option String
  pub evidence_verification_pointers : Dict String
  pub input_identity : Option String
  pub enforced_identity : Option String

-- The keyword arguments of `evaluate_pre_tool_call`.
pub record ToolCallRequest : Type 0 where
  pub tenant_id : String
  pub tool_name : String
  pub arguments : Dict Value
  pub tool_call_id : Option String
  pub snapshot : Dict Value

-- What a backend returns or raises; `unavailable` is a MicrosoftAgtUnavailable.
pub data BackendAnswer : Type 0 where
  answered : AgtDecision → BackendAnswer
  unavailable : String → BackendAnswer
  raised : Exn → BackendAnswer

-- `MicrosoftAgtBackend` and `CognousAuthorityEvaluator`, on a state that they may share.
pub record Services (W : Type 0) : Type 0 where
  pub evaluate_pre_tool_call : ToolCallRequest → W → BackendAnswer × W
  pub authorize : RuntimeProposal → String → Option ℕ → Exec W RuntimeDecision

pub record MicrosoftAgtCompatibilityEvidence : Type 0 where
  pub profile : String
  pub upstream_revision : String
  pub source : String
  pub tenant_id : String
  pub tool_name : String
  pub tool_call_id : Option String
  pub agt_decision : String
  pub agt_reason : Option String
  pub agt_message : Option String
  pub agt_warnings : List (Dict Value)
  pub agt_input_identity : Option String
  pub agt_enforced_identity : Option String
  pub agt_evidence_artefact : Option String
  pub agt_evidence_verification_pointers : Dict String
  pub original_proposal_commitment : String
  pub effective_proposal_commitment : Option String
  pub transformed : Bool
  pub cognous_decision_id : Option String
  pub cognous_result : Option DecisionResult
  pub limitation : String

pub data CompatibilityOutcome : Type 0 where
  authorized deny hold error : CompatibilityOutcome

pub record MicrosoftAgtCompatibilityResult : Type 0 where
  pub result : CompatibilityOutcome
  pub proposal : Option RuntimeProposal
  pub cognous_decision : Option RuntimeDecision
  pub evidence : MicrosoftAgtCompatibilityEvidence
  pub reasons : List String
