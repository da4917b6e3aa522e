-- ===== src/Bounded/Documents.antt =====
-- src/agent_control_plane/bounded.py: the Action Manifest and the authority context that the
-- workflow reads, the `Resolver` protocol, and what it uses of hashing and of timestamps.
use cognous_agent_control_pl.Base.{ℕ, String, Bool, false, Option, List, ◌≡◌, Dict, is_blank}
use cognous_agent_control_pl.Base.Outcome.{value_error, Result, ok, raise}
use cognous_agent_control_pl.Bounded.Models.{
  Value, RuntimeProposal, PolicyVersion, GrantStatus, ApprovalStatus, EvidenceStatus, PolicyStatus,
  ConflictStatus, IdentityStatus, MandateStatus, RoleMappingStatus,
}

pub record Institution : Type 0 where
  pub institution_id : String
  pub authority_domain : String
  pub authority_basis_ref : Option String

pub record Permission : Type 0 where
  pub action : String
  pub targets : List String
  pub data_scopes : List String
  pub max_amount : ℕ
  pub unit : String
  pub max_effects : ℕ

pub record ApprovalRequirement : Type 0 where
  pub role_id : String
  pub independent_of_actor : Bool

pub record EvidenceObligation : Type 0 where
  pub obligation_id : String
  pub source_ref : String
  pub required : Bool
  pub kind : String
  pub max_age_seconds : ℕ
  pub unknown_behavior : Option String

pub record Requirement : Type 0 where
  pub requirement_id : String
  pub consequence_tier : Option String
  pub permissions : List Permission
  pub approvals : List ApprovalRequirement
  pub evidence : List EvidenceObligation

pub record Grant : Type 0 where
  pub grant_id : String
  pub revision : String
  pub issuer : String
  pub issuer_role : String
  pub issuance_record_ref : String
  pub status_ref : String
  pub requirement_id : String
  pub grantee : String
  pub acting_identity : String
  pub tenant_id : Option String
  pub not_before : String
  pub expires_at : String
  pub permissions : List Permission
  pub parent_grant_id : Option String
  pub policy_versions : List PolicyVersion
  pub approval_refs : List String

pub record AuthorityContext : Type 0 where
  pub context_id : String
  pub schema_version : String
  pub interface_status : String
  pub tenant_id : Option String
  pub principal : String
  pub acting_identity : String
  pub institution : Institution
  pub requirement : Requirement
  pub grant : Option Grant
  pub precedence_refs : List String

pub record Tool : Type 0 where
  pub tool_name : Option String
  pub adapter_id : Option String

pub record TargetPolicy : Type 0 where
  pub allow_any_target : Bool
  pub allowed_targets : List String

pub record PayloadPolicy : Type 0 where
  pub required_fields : List String
  pub optional_fields : List String
  pub forbidden_fields : List String

pub record EffectLimits : Type 0 where
  pub max_effects : Option ℕ
  pub max_amount : Option ℕ
  pub unit : Option String

pub record RequiredScope : Type 0 where
  pub scope : String
  pub required : Bool

pub record DeclaredAuthority : Type 0 where
  pub profile_ref : Option String
  pub requirement_id : Option String
  pub institution_id : Option String
  pub authority_domain : Option String
  pub consequence_tier : Option String

pub record ReviewRequirement : Type 0 where
  pub mode : Option String
  pub reviewer_role : Option String

pub record ManifestAction : Type 0 where
  pub action_id : String
  pub action_name : String
  pub tool_name : Option String
  pub target_policy : Option TargetPolicy
  pub payload_policy : Option PayloadPolicy
  pub effect_limits : Option EffectLimits
  pub authority_required : List RequiredScope
  pub authority_context : Option DeclaredAuthority
  pub review_requirement : Option ReviewRequirement

pub record Manifest : Type 0 where
  pub manifest_version : Option String
  pub manifest_id : Option String
  pub actions : List ManifestAction
  pub tools : List Tool

-- The protocol by which the workflow asks for current authority. Between two calls of the workflow
-- it may answer differently: each operation takes the resolver as it is at its call.
pub record Resolver : Type 0 where
  pub authority_context : String → Option AuthorityContext
  pub grant_status : String → Option GrantStatus
  pub identity_status : String → String → IdentityStatus
  pub issuer_mandate : String → String → MandateStatus
  pub approval_status : String → Option ApprovalStatus
  pub policy_status : String → Option PolicyStatus
  pub conflict_status : String → Option ConflictStatus
  pub evidence_status : String → Option EvidenceStatus
  pub role_mapping : String → Option RoleMappingStatus

-- The JSON documents whose commitment the workflow takes, one constructor for each `dict` shape.
pub data Committed : Type 0 where
  proposal : RuntimeProposal → Committed
  effect : String → Option String → Option String → Committed
  mapping : String → String → Dict (List String) → Committed
  manifest : Manifest → Committed
  payload : Dict Value → Committed
  requirement : Requirement → Committed
  policy_versions : List PolicyVersion → Committed

-- What `datetime.fromisoformat` makes of a text whose "Z" is rewritten to "+00:00".
pub data Timestamp : Type 0 where
  malformed : Timestamp
  -- no timezone
  naive : ℕ → Timestamp
  -- converted to UTC
  aware : ℕ → Timestamp

-- SHA-256 over canonical JSON, and the reading and printing of ISO timestamps.
pub record Platform : Type 0 where
  pub commitment : Committed → String
  pub fromisoformat : String → Timestamp
  pub isoformat : ℕ → String

-- What the workflow relies on of `isoformat`: its text of an aware instant is not blank and reads
-- back as that instant.
pub record PrintsTime (p : Platform) : Type 0 where
  pub reads : (t : ℕ) → p.fromisoformat (p.isoformat t) ≡ Timestamp.aware t
  pub visible : (t : ℕ) → is_blank (p.isoformat t) ≡ false

abbrev pub second : ℕ
second = 1000000

abbrev timestamp_utc : Timestamp → Result ℕ
timestamp_utc Timestamp.malformed =
    raise (record { kind = value_error; message = "Invalid isoformat string" })
timestamp_utc (Timestamp.naive t) = ok t
timestamp_utc (Timestamp.aware t) = ok t

-- `_parse`: a text with no timezone is read as UTC.
unfoldable pub parse : Platform → String → Result ℕ
parse p value = timestamp_utc (p.fromisoformat value)
