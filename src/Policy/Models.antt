-- ===== src/Policy/Models.antt =====
-- src/agent_control_plane/models.py: frames, proposals, decisions, traces and authority records.
use cognous_agent_control_pl.Base.{String, Bool, Option, List, Dict}
use cognous_agent_control_pl.Bounded.Models.{Value}

pub record Frame : Type 0 where
  pub frame_id : String
  pub task : String
  pub actor : String
  pub environment : String
  pub allowed_tools : List String
  pub blocked_tools : List String
  pub policy_version : String
  pub created_at : String

pub record ActionProposal : Type 0 where
  pub action_id : String
  pub run_id : String
  pub tool_name : String
  pub action_type : String
  pub target : String
  pub payload : Dict Value
  pub proposed_at : String
  pub reason : Option String

pub data PolicyResult : Type 0 where
  allow block escalate : PolicyResult

pub data TraceRuleResult : Type 0 where
  reached : PolicyResult → TraceRuleResult
  not_reached : TraceRuleResult

pub record PolicyRuleEvaluation : Type 0 where
  pub rule_name : String
  pub matched : Bool
  pub result : TraceRuleResult
  pub reason : String

pub record PolicyEvaluationTrace : Type 0 where
  pub trace_id : String
  pub run_id : String
  pub action_id : String
  pub evaluated_at : String
  pub rules_evaluated : List PolicyRuleEvaluation
  pub final_result : PolicyResult
  pub deterministic_fingerprint : String

pub record PolicyDecision : Type 0 where
  pub decision_id : String
  pub action_id : String
  pub run_id : String
  pub result : PolicyResult
  pub policy_name : String
  pub reason : String
  pub decided_at : String
  pub deterministic_fingerprint : String
  pub trace_id : Option String

pub record AuthorityRecord : Type 0 where
  pub authority_id : String
  pub run_id : String
  pub actor : String
  pub scope : List String
  pub expires_at : Option String
  pub source : String
  pub created_at : String
