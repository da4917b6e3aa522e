-- ===== src/Records/Models.antt =====
-- src/agent_control_plane/models.py: the records of a run.
use cognous_agent_control_pl.Base.{String, Bool, Option, List, Dict}
use cognous_agent_control_pl.Bounded.Models.{Value}
use cognous_agent_control_pl.Policy.Models.{
  Frame, ActionProposal, PolicyDecision, PolicyEvaluationTrace, AuthorityRecord,
}

pub record BlockedAction : Type 0 where
  pub blocked_id : String
  pub action_id : String
  pub run_id : String
  pub reason : String
  pub policy_name : String
  pub blocked_at : String

pub data SourceType : Type 0 where
  tool database file api user_input model_output other : SourceType

pub record RelianceRecord : Type 0 where
  pub reliance_id : String
  pub run_id : String
  pub source_name : String
  pub source_type : SourceType
  pub scope : String
  pub referenced_action_id : Option String
  pub created_at : String

pub record RunRecord : Type 0 where
  pub run_id : String
  pub task : String
  pub created_at : String
  pub frame : Frame
  pub actions : List ActionProposal
  pub decisions : List PolicyDecision
  pub policy_traces : List PolicyEvaluationTrace
  pub authority_records : List AuthorityRecord
  pub reliance_records : List RelianceRecord
  pub blocked_actions : List BlockedAction
  pub completed : Bool
  pub final_output : Option String
  pub replay_bundle_id : Option String

pub record ReplayBundle : Type 0 where
  pub replay_bundle_id : String
  pub run_id : String
  pub generated_at : String
  pub frame : Frame
  pub actions : List ActionProposal
  pub decisions : List PolicyDecision
  pub policy_traces : List PolicyEvaluationTrace
  pub authority_records : List AuthorityRecord
  pub reliance_records : List RelianceRecord
  pub blocked_actions : List BlockedAction
  pub final_output : Option String

pub record SignedReplayBundle : Type 0 where
  pub signed_bundle_id : String
  pub replay_bundle : ReplayBundle
  pub signature : String
  pub signature_algorithm : String
  pub signed_at : String

pub data Severity : Type 0 where
  error warning : Severity

pub record ValidationIssue : Type 0 where
  pub severity : Severity
  pub code : String
  pub message : String
  pub path : Option String

pub data CheckedType : Type 0 where
  run_record replay_bundle : CheckedType

pub record ValidationReport : Type 0 where
  pub valid : Bool
  pub checked_object_type : CheckedType
  pub checked_id : String
  pub issues : List ValidationIssue

pub record ToolExecutionResult : Type 0 where
  pub action_id : String
  pub run_id : String
  pub executed : Bool
  pub result : Dict Value
  pub error : Option String

pub record RedactionConfig : Type 0 where
  pub redact_payloads : Bool
  pub redact_targets : Bool
  pub redact_final_output : Bool
  pub redact_reasons : Bool
  pub replacement : String
