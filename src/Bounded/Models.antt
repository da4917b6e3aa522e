-- ===== src/Bounded/Models.antt =====
-- src/agent_control_plane/bounded.py: the documents and records of the bounded workflow.
-- `dict` values are lists of keys and values; a key that the code reads through `.get` is an
-- `Option`, a key that it indexes is a plain field, as the pinned contracts require it. An instant
-- is a natural number of microseconds. An amount is a non-negative float, which the program only
-- compares: it stands here by its bit pattern, whose order is the same.
use cognous_agent_control_pl.Base.{ℕ, String, Bool, Option, List, String-discrete, ℕ_discrete, Dict}

-- JSON values.
mutual
  pub data Value : Type 0 where
    null : Value
    boolean : Bool → Value
    number : ℕ → Value
    text : String → Value
    array : Items → Value
    object : Fields → Value

  pub data Items : Type 0 where
    nil : Items
    cons : Value → Items → Items

  pub data Fields : Type 0 where
    end : Fields
    field : String → Value → Fields → Fields

pub record RuntimeProposal : Type 0 where
  pub manifest_id : String
  pub manifest_version : String
  pub manifest_digest : String
  pub actor : String
  pub principal : String
  pub action_id : String
  pub adapter_id : String
  pub target : String
  pub payload : Dict Value
  pub payload_commitment : String
  pub requested_permissions : List String
  pub amount : ℕ
  pub unit : String
  pub effects : ℕ
  pub authority_context_ref : Option String
  pub requirement_id : Option String
  pub risk_metadata : Dict Value
  pub not_before : Option String
  pub expires_at : Option String
  pub correlation_id : Option String
  pub run_id : Option String
  pub expected_side_effects : List String
  pub evidence_refs : List String
  -- `some` exactly for a TenantRuntimeProposal.
  pub tenant_id : Option String

pub record PolicyVersion : Type 0 where
  pub ref : String
  pub version : String

pub data GrantState : Type 0 where
  active suspended revoked unknown : GrantState

pub record GrantStatus : Type 0 where
  pub grant_id : String
  pub revision : String
  pub status : GrantState
  pub observed_at : String
  pub version : String
  pub status_ref : String
  pub authority_basis_ref : String
  pub institution_id : String
  pub authority_domain : String
  pub tenant_id : Option String
  pub superseded_by : Option String

pub data ApprovalState : Type 0 where
  active revoked unknown : ApprovalState

pub record ApprovalStatus : Type 0 where
  pub approval_ref : String
  pub role_id : String
  pub approver : String
  pub grant_id : String
  pub grant_revision : String
  pub proposal_commitment : String
  pub policy_versions : List PolicyVersion
  pub status : ApprovalState
  pub observed_at : String
  pub institution_id : String
  pub authority_domain : String
  pub tenant_id : Option String

pub data EvidenceState : Type 0 where
  current stale unknown : EvidenceState

pub record EvidenceStatus : Type 0 where
  pub obligation_id : String
  pub state : EvidenceState
  pub observed_at : String
  pub source_ref : String
  pub institution_id : String
  pub authority_domain : String

pub data PolicyState : Type 0 where
  active superseded unknown : PolicyState

pub record PolicyStatus : Type 0 where
  pub ref : String
  pub version : String
  pub status : PolicyState
  pub observed_at : String
  pub institution_id : String
  pub authority_domain : String
  pub tenant_id : Option String

pub data ConflictState : Type 0 where
  clear conflict unknown : ConflictState

pub record ConflictStatus : Type 0 where
  pub requirement_id : String
  pub state : ConflictState
  pub observed_at : String
  pub institution_id : String
  pub authority_domain : String
  pub conflict_refs : List String

pub record IdentityStatus : Type 0 where
  pub identity : String
  pub principal : String
  pub authenticated : Bool
  pub delegation_valid : Bool
  pub observed_at : String
  pub institution_id : String
  pub authority_domain : String
  pub chain : List String

pub record MandateStatus : Type 0 where
  pub issuer : String
  pub issuer_role : String
  pub issuance_record_ref : String
  pub mandate_valid : Bool
  pub observed_at : String
  pub institution_id : String
  pub authority_domain : String

pub record RoleMappingStatus : Type 0 where
  pub institution_id : String
  pub version : String
  pub digest : String
  pub aliases : Dict (List String)

pub record AuthorizationBinding : Type 0 where
  pub proposal_commitment : String
  pub manifest_id : String
  pub manifest_version : String
  pub manifest_digest : String
  pub actor : String
  pub principal : String
  pub action_id : String
  pub adapter_id : String
  pub target : String
  pub payload_commitment : String
  pub requested_permissions : List String
  pub amount : ℕ
  pub unit : String
  pub effects : ℕ
  pub authority_context_id : String
  pub authority_context_version : String
  pub authority_context_status : String
  pub requirement_id : String
  pub requirement_commitment : String
  pub grant_id : String
  pub grant_revision : String
  pub policy_versions : List PolicyVersion
  pub role_mapping_version : String
  pub role_mapping_digest : String
  pub effective_max_effects : ℕ
  -- `some` exactly for a TenantAuthorizationBinding.
  pub tenant_id : Option String

pub data DecisionResult : Type 0 where
  authorized hold deny : DecisionResult

pub record RuntimeDecision : Type 0 where
  pub decision_id : String
  pub effect_id : String
  pub result : DecisionResult
  pub reasons : List String
  pub decided_at : String
  pub binding : Option AuthorizationBinding

-- Python's `==` on models compares every field.
unfoldable pub PolicyVersion-discrete : Discrete PolicyVersion
PolicyVersion-discrete = hlevel String-discrete

unfoldable pub PolicyVersions-discrete : Discrete (List PolicyVersion)
PolicyVersions-discrete = hlevel String-discrete

unfoldable pub AuthorizationBinding-discrete : Discrete AuthorizationBinding
AuthorizationBinding-discrete = hlevel (String-discrete, ℕ_discrete)

unfoldable pub RuntimeDecision-discrete : Discrete RuntimeDecision
RuntimeDecision-discrete = hlevel (String-discrete, ℕ_discrete)

pub data AttemptStatus : Type 0 where
  attempted acknowledged unknown failed partial : AttemptStatus

pub record EffectAttempt : Type 0 where
  pub attempt_id : String
  pub effect_id : String
  pub decision_id : String
  pub started_at : String
  pub status : AttemptStatus
  pub acknowledgement : Dict Value
  pub error : Option String

pub data InputType : Type 0 where
  grant policy approval evidence role_mapping : InputType

pub record RefusalInputVersion : Type 0 where
  pub input_type : InputType
  pub input_id : String
  pub expected_version : String
  pub observed_version : String

pub record EffectTimeRefusal : Type 0 where
  pub refusal_id : String
  pub decision_id : String
  pub effect_id : String
  pub recorded_at : String
  pub reasons : List String
  pub changed_inputs : List RefusalInputVersion

pub data ObservedState : Type 0 where
  absent applied partial unknown : ObservedState

pub record EffectObservation : Type 0 where
  pub effect_id : String
  pub observed_at : Option String
  pub state : ObservedState
  pub destination_state : Dict Value

pub record ObservationPolicy : Type 0 where
  pub max_age_seconds : ℕ
  pub clock_tolerance_seconds : ℕ

pub data ReconciliationOutcome : Type 0 where
  applied observed_absent safe_to_retry hold : ReconciliationOutcome

pub record ReconciliationResult : Type 0 where
  pub effect_id : String
  pub reconciled_at : String
  pub result : ReconciliationOutcome
  pub observation : Option EffectObservation
  pub observation_accepted : Bool
  pub retry_eligible : Bool
  pub reasons : List String
  pub evaluation_time : Option String
  pub observation_max_age_seconds : Option ℕ
  pub observation_clock_tolerance_seconds : Option ℕ

pub record BoundedRunRecord : Type 0 where
  pub run_id : String
  pub decisions : List RuntimeDecision
  pub refusals : List EffectTimeRefusal
  pub attempts : List EffectAttempt
  pub observations : List EffectObservation
  pub reconciliations : List ReconciliationResult
