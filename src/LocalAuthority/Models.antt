-- ===== src/LocalAuthority/Models.antt =====
-- src/agent_control_plane/local_authority_effect.py: projections, claims, the documents whose
-- commitment a claim holds, and the authority snapshot of a resolver. A Tenant variant is told by its
-- `tenant_id`, as for the models of bounded.py.
use cognous_agent_control_pl.Base.{ℕ, String, Bool, Option, List, Dict}
use cognous_agent_control_pl.Bounded.Models.{
  Value, PolicyVersion, GrantState, GrantStatus, ApprovalState, ApprovalStatus, EvidenceState,
  EvidenceStatus, PolicyState, PolicyStatus,
}
use cognous_agent_control_pl.Bounded.Documents.{AuthorityContext}

pub record ApprovalProjection : Type 0 where
  pub approval_ref : String
  pub role_id : String
  pub approver : String
  pub status : ApprovalState
  pub grant_id : String
  pub grant_revision : String
  pub proposal_commitment : String
  pub policy_versions : List PolicyVersion
  pub observed_at : String
  pub tenant_id : Option String

pub record PolicyProjection : Type 0 where
  pub ref : String
  pub version : String
  pub status : PolicyState
  pub observed_at : String
  pub tenant_id : Option String

pub record EvidenceProjection : Type 0 where
  pub obligation_id : String
  pub source_ref : String
  pub required : Bool
  pub kind : String
  pub max_age_seconds : ℕ
  pub unknown_behavior : String
  pub state : EvidenceState
  pub observed_at : String

-- Every field of a LocalExecutionClaim but its `claim_commitment`; `tenant_id` is `some` exactly for
-- a TenantLocalExecutionClaim, whose `authorization_generation` is a constant.
pub record ClaimContent : Type 0 where
  pub profile : String
  pub claim_id : String
  pub decision_id : String
  pub effect_id : String
  pub institution_id : String
  pub authority_domain : String
  pub actor : String
  pub principal : String
  pub grant_id : String
  pub grant_revision : String
  pub grant_status : GrantState
  pub manifest_id : String
  pub manifest_version : String
  pub manifest_digest : String
  pub action_id : String
  pub adapter_id : String
  pub target : String
  pub payload_commitment : String
  pub requested_permissions : List String
  pub amount : ℕ
  pub unit : String
  pub effects : ℕ
  pub authority_context_id : String
  pub requirement_id : String
  pub requirement_commitment : String
  pub operation_commitment : String
  pub approval_state : List ApprovalProjection
  pub approval_state_commitment : String
  pub policy_state : List PolicyProjection
  pub policy_state_commitment : String
  pub evidence_state : List EvidenceProjection
  pub evidence_state_commitment : String
  pub authority_state_commitment : String
  pub budget_id : String
  pub max_effects : ℕ
  pub not_before : String
  pub expires_at : String
  pub issued_at : String
  pub decision_input_commitment : Option String
  pub decision_input_profile_version : Option String
  pub source : String
  pub authorizing_by_possession : Bool
  pub tenant_id : Option String

pub record LocalExecutionClaim : Type 0 where
  pub content : ClaimContent
  pub claim_commitment : String

-- The value of `_operation_payload`.
pub record OperationPayload : Type 0 where
  pub actor : String
  pub principal : String
  pub institution_id : String
  pub authority_domain : String
  pub manifest_id : String
  pub manifest_version : String
  pub manifest_digest : String
  pub action_id : String
  pub adapter_id : String
  pub target : String
  pub payload : Dict Value
  pub payload_commitment : String
  pub requested_permissions : List String
  pub amount : ℕ
  pub unit : String
  pub effects : ℕ
  pub authority_context_id : Option String
  pub requirement_id : Option String
  pub grant_id : String
  pub grant_revision : String
  pub tenant_id : Option String

-- The dictionary `authority_state`.
pub record AuthorityState : Type 0 where
  pub grant_id : String
  pub grant_revision : String
  pub grant_status : GrantState
  pub requirement_commitment : String
  pub approvals : List ApprovalProjection
  pub policies : List PolicyProjection
  pub evidence : List EvidenceProjection

-- The JSON documents whose commitment a claim holds.
pub data ClaimDocument : Type 0 where
  operation : OperationPayload → ClaimDocument
  approvals : List ApprovalProjection → ClaimDocument
  policies : List PolicyProjection → ClaimDocument
  evidence : List EvidenceProjection → ClaimDocument
  authority : AuthorityState → ClaimDocument
  content : ClaimContent → ClaimDocument

-- What `authority_effect_snapshot` returns; a part that is not there, or not a `dict`, is none.
pub record AuthoritySnapshot : Type 0 where
  pub context : Option AuthorityContext
  pub grant_status : Option GrantStatus
  pub approvals : Option (Dict ApprovalStatus)
  pub policies : Option (Dict PolicyStatus)
  pub evidence : Option (Dict EvidenceStatus)
