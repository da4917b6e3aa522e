-- ===== src/Examples/Authority.antt =====
-- The authority for the refund, and the binding that it gives.
use cognous_agent_control_pl.Base.{
  true, some, none, [], ◌∷◌, ◌≡◌, refl, get, String-discrete, sorted, sorted_set,
}
use cognous_agent_control_pl.Base.Outcome.{ok, failing}
use cognous_agent_control_pl.Bounded.Models.{
  GrantStatus, ApprovalStatus, EvidenceStatus, PolicyStatus, ConflictStatus, IdentityStatus,
  MandateStatus, RoleMappingStatus, GrantState, ApprovalState, EvidenceState, PolicyState,
  ConflictState, AuthorizationBinding,
}
use cognous_agent_control_pl.Bounded.Documents.{Resolver, parse}
use cognous_agent_control_pl.Bounded.Manifest.{
  find_action, find_tool, manifest_mismatches, starts_after, ended_by, needed_scopes,
  matching_permission,
}
use cognous_agent_control_pl.Bounded.Status.{resolve_role, stale}
use cognous_agent_control_pl.Bounded.Resolve.{resolve}
use cognous_agent_control_pl.Bounded.Context.{required_roles}
use cognous_agent_control_pl.Examples.Clock.{unary, read, digest}
use cognous_agent_control_pl.Examples.Refund.{
  refund_proposal, refund_context, refund_policy, refund_config,
}

abbrev pub refund_status : GrantStatus
refund_status = record {
  grant_id = "grant-1";
  revision = "r1";
  status = GrantState.active;
  observed_at = "Txxx";
  version = "1";
  status_ref = "status-1";
  authority_basis_ref = "basis-1";
  institution_id = "bank";
  authority_domain = "refunds";
  tenant_id = none;
  superseded_by = none;
}

abbrev pub refund_identity : IdentityStatus
refund_identity = record {
  identity = "agent";
  principal = "clerk";
  authenticated = true;
  delegation_valid = true;
  observed_at = "Txxx";
  institution_id = "bank";
  authority_domain = "refunds";
  chain = "clerk" ∷ [];
}

abbrev pub refund_mandate : MandateStatus
refund_mandate = record {
  issuer = "office";
  issuer_role = "urn:role:issuer";
  issuance_record_ref = "issuance-1";
  mandate_valid = true;
  observed_at = "Txxx";
  institution_id = "bank";
  authority_domain = "refunds";
}

abbrev pub refund_approval : ApprovalStatus
refund_approval = record {
  approval_ref = "approval-1";
  role_id = "urn:role:reviewer";
  approver = "reviewer";
  grant_id = "grant-1";
  grant_revision = "r1";
  proposal_commitment = "proposal:case-7";
  policy_versions = refund_policy ∷ [];
  status = ApprovalState.active;
  observed_at = "Txxx";
  institution_id = "bank";
  authority_domain = "refunds";
  tenant_id = none;
}

abbrev pub policy_now : PolicyStatus
policy_now = record {
  ref = "policy-1";
  version = "v2";
  status = PolicyState.active;
  observed_at = "Txxx";
  institution_id = "bank";
  authority_domain = "refunds";
  tenant_id = none;
}

abbrev pub no_conflict : ConflictStatus
no_conflict = record {
  requirement_id = "requirement-1";
  state = ConflictState.clear;
  observed_at = "Txxx";
  institution_id = "bank";
  authority_domain = "refunds";
  conflict_refs = [];
}

abbrev pub evidence_now : EvidenceStatus
evidence_now = record {
  obligation_id = "evidence-1";
  state = EvidenceState.current;
  observed_at = "Txxx";
  source_ref = "source-1";
  institution_id = "bank";
  authority_domain = "refunds";
}

abbrev pub bank_roles : RoleMappingStatus
bank_roles = record {
  institution_id = "bank";
  version = "m1";
  digest = "mapping:bank/m1";
  aliases = ("reviewer", "urn:role:reviewer" ∷ []) ∷ [];
}

abbrev pub refund_authority : Resolver
refund_authority = record {
  authority_context = λ ref. some refund_context;
  grant_status = λ k. some refund_status;
  identity_status = λ i q. refund_identity;
  issuer_mandate = λ i q. refund_mandate;
  approval_status = λ ref. some refund_approval;
  policy_status = λ ref. some policy_now;
  conflict_status = λ k. some no_conflict;
  evidence_status = λ k. some evidence_now;
  role_mapping = λ k. some bank_roles;
}

abbrev pub refund_binding : AuthorizationBinding
refund_binding = record {
  proposal_commitment = "proposal:case-7";
  manifest_id = "manifest-1";
  manifest_version = "1.1";
  manifest_digest = "manifest";
  actor = "agent";
  principal = "clerk";
  action_id = "refund-1";
  adapter_id = "adapter-1";
  target = "case-7";
  payload_commitment = "payload";
  requested_permissions = "refunds:write" ∷ [];
  amount = 20;
  unit = "USD";
  effects = 1;
  authority_context_id = "context-1";
  authority_context_version = "0.1.0";
  authority_context_status = "proposed_pending_governor_review";
  requirement_id = "requirement-1";
  requirement_commitment = "requirement:requirement-1";
  grant_id = "grant-1";
  grant_revision = "r1";
  policy_versions = refund_policy ∷ [];
  role_mapping_version = "m1";
  role_mapping_digest = "mapping:bank/m1";
  effective_max_effects = 1;
  tenant_id = none;
}

pub refund-resolves :
    resolve unary refund_config refund_authority 4 refund_proposal ≡ ok ([], some refund_binding)
unfolding resolve failing manifest_mismatches find_action starts_after parse read ended_by
    needed_scopes find_tool digest resolve_role get required_roles stale String-discrete sorted
    matching_permission sorted_set
refund-resolves = refl
