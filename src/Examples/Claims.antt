-- ===== src/Examples/Claims.antt =====
-- The theorems of the claims, run on the refund: the decision is handed to a local store.
use cognous_agent_control_pl.Base.{
  String, true, some, none, List, [], ◌∷◌, ◌++◌, ◌≡◌, ◌⊎◌, refl, get, fstring, String-discrete,
  ℕ_discrete, sorted, sorted_set,
}
use cognous_agent_control_pl.Base.Outcome.{Exn, ok, raise, bind, Exec, failing}
use cognous_agent_control_pl.Bounded.Models.{
  AuthorizationBinding-discrete, RuntimeDecision-discrete, PolicyVersions-discrete,
}
use cognous_agent_control_pl.Bounded.Documents.{parse}
use cognous_agent_control_pl.Bounded.Store.{stored, lookup_decision, find_decision}
use cognous_agent_control_pl.Bounded.Observation.{Moment}
use cognous_agent_control_pl.Bounded.Manifest.{
  find_action, find_tool, manifest_mismatches, starts_after, ended_by, needed_scopes,
  matching_permission,
}
use cognous_agent_control_pl.Bounded.Status.{
  resolve_role, stale, is_active_grant, is_active_approval, is_active_policy, is_current,
}
use cognous_agent_control_pl.Bounded.Resolve.{resolve}
use cognous_agent_control_pl.Bounded.Context.{required_roles}
use cognous_agent_control_pl.LocalAuthority.Models.{
  LocalExecutionClaim, ClaimDocument, AuthoritySnapshot,
}
use cognous_agent_control_pl.LocalAuthority.Projections.{
  Validated, validate_issuance_snapshot, refuse_if, grant_status_differs, part, approvals_of,
  approval_of, approval_differs, policies_of, policy_of, policy_differs, evidence_all,
  evidence_found, evidence_of, evidence_foreign, is_critical, validate_statuses, validate_context,
}
use cognous_agent_control_pl.LocalAuthority.Projections.Snapshot.{
  IsValidated, validate_issuance_snapshot-IsValidated,
}
use cognous_agent_control_pl.LocalAuthority.Content.{
  IssueCall, content_of, claim_of, authority_state_of, interval_of, utc_optional, operation_payload,
}
use cognous_agent_control_pl.LocalAuthority.Claim.{
  AuthoritySource, Issuing, provision_claim, materialize_at, admit_issue, authorized_binding,
  still_bound, materialize, issue,
}
use cognous_agent_control_pl.LocalAuthority.Claim.Provision.{Issues, provision_claim-Issues}
use cognous_agent_control_pl.Examples.Clock.{unary, digest, read, print, marks}
use cognous_agent_control_pl.Examples.Refund.{
  refund_config, refund_proposal, refund_context, refund_grant,
}
use cognous_agent_control_pl.Examples.Authority.{
  refund_authority, refund_binding, refund_status, refund_approval, policy_now, evidence_now,
}
use cognous_agent_control_pl.Examples.Records.{refund_decision, refund_document}

-- A document is told by its kind and by the identifiers in it.
abbrev claim_digest : ClaimDocument → String
claim_digest (ClaimDocument.operation x) = fstring ("operation:" ∷ x.action_id ∷ [])
claim_digest (ClaimDocument.approvals xs) = "approvals"
claim_digest (ClaimDocument.policies xs) = "policies"
claim_digest (ClaimDocument.evidence xs) = "evidence"
claim_digest (ClaimDocument.authority x) = fstring ("authority:" ∷ x.grant_id ∷ [])
claim_digest (ClaimDocument.content x) = fstring ("claim:" ∷ x.claim_id ∷ [])

abbrev refund_snapshot : AuthoritySnapshot
refund_snapshot = record {
  context = some refund_context;
  grant_status = some refund_status;
  approvals = some (("approval-1", refund_approval) ∷ []);
  policies = some (("policy-1", policy_now) ∷ []);
  evidence = some (("evidence-1", evidence_now) ∷ []);
}

abbrev refund_source : AuthoritySource
refund_source = record {
  resolver = refund_authority;
  snapshot_reader = some (λ ref. some refund_snapshot);
}

abbrev refund_issue : IssueCall
refund_issue = record {
  proposal = refund_proposal;
  decision = refund_decision;
  now = Moment.aware 4;
  claim_id = none;
  budget_id = some "";
  expires_at = some "Txxxxxx";
  decision_input_commitment = none;
  decision_input_profile_version = none;
  uuid = "claim-1";
}

abbrev store_claim : LocalExecutionClaim → Exec (List LocalExecutionClaim) Unit
store_claim x xs = (ok tt, xs ++ x ∷ [])

abbrev empty_sink : Issuing (List LocalExecutionClaim)
empty_sink = record { records = stored refund_document; sink = [] }

provision_claim-Issues_example :
    ((e : Exn) × (provision_claim unary claim_digest refund_config refund_source refund_issue
          store_claim empty_sink
        ≡ (raise e, empty_sink)))
    ⊎ ((x : LocalExecutionClaim) × Issues unary claim_digest refund_config refund_source
          refund_issue empty_sink x
        × (provision_claim unary claim_digest refund_config refund_source refund_issue store_claim
              empty_sink
            ≡ (
              bind (store_claim x []).0 (λ _. ok x),
              record empty_sink { sink = (store_claim x []).1 },
            )))
provision_claim-Issues_example =
    provision_claim-Issues unary claim_digest refund_config refund_source refund_issue store_claim
      empty_sink

abbrev accepted : Validated
accepted = record {
  context = refund_context;
  grant = refund_grant;
  grant_status = refund_status;
  approvals =
      record {
        approval_ref = "approval-1";
        role_id = "urn:role:reviewer";
        approver = "reviewer";
        status = refund_approval.status;
        grant_id = "grant-1";
        grant_revision = "r1";
        proposal_commitment = "proposal:case-7";
        policy_versions = refund_approval.policy_versions;
        observed_at = "Txxx";
        tenant_id = none;
      }
      ∷ [];
  policies =
      record {
        ref = "policy-1";
        version = "v2";
        status = policy_now.status;
        observed_at = "Txxx";
        tenant_id = none;
      }
      ∷ [];
  evidence =
      record {
        obligation_id = "evidence-1";
        source_ref = "source-1";
        required = true;
        kind = "authorization";
        max_age_seconds = 60;
        unknown_behavior = "hold_effect";
        state = evidence_now.state;
        observed_at = "Txxx";
      }
      ∷ [];
}

refund_accepted : validate_issuance_snapshot unary 5 4 refund_binding refund_snapshot ≡ ok accepted
unfolding validate_issuance_snapshot refuse_if grant_status_differs part approvals_of approval_of
    approval_differs policies_of policy_of policy_differs evidence_all evidence_found evidence_of
    evidence_foreign is_critical validate_statuses validate_context parse read digest get
    is_active_grant is_active_approval is_active_policy is_current PolicyVersions-discrete
    String-discrete
refund_accepted = refl

validate_issuance_snapshot-IsValidated_example :
    IsValidated unary 5 4 refund_binding refund_snapshot accepted
validate_issuance_snapshot-IsValidated_example =
    validate_issuance_snapshot-IsValidated unary 5 4 refund_binding refund_snapshot accepted
      refund_accepted

-- The refund is handed over: the store then holds one claim, for the shortest of the intervals.
abbrev summary : List LocalExecutionClaim → List (String × String × String)
summary [] = []
summary (x ∷ xs) = (x.content.claim_id, x.content.not_before, x.content.expires_at) ∷ summary xs

refund_provisioned :
    summary
      (provision_claim unary claim_digest refund_config refund_source refund_issue store_claim
        empty_sink).1.sink
    ≡ ("claim-1", "Tx", "Txxxxxx") ∷ []
unfolding provision_claim lookup_decision find_decision RuntimeDecision-discrete String-discrete
    ℕ_discrete AuthorizationBinding-discrete resolve manifest_mismatches failing find_action
    starts_after parse read ended_by needed_scopes find_tool digest resolve_role get required_roles
    stale sorted matching_permission sorted_set validate_issuance_snapshot refuse_if
    grant_status_differs part approvals_of approval_of approval_differs policies_of policy_of
    policy_differs evidence_all evidence_found evidence_of evidence_foreign is_critical
    validate_statuses validate_context is_active_grant is_active_approval is_active_policy
    is_current PolicyVersions-discrete interval_of utc_optional operation_payload issue
    materialize_at admit_issue authorized_binding still_bound materialize content_of claim_of
    authority_state_of print marks
refund_provisioned = refl
