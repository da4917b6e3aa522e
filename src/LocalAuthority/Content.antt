-- ===== src/LocalAuthority/Content.antt =====
-- src/agent_control_plane/local_authority_effect.py: what a claim holds, in
-- `_materialize_under_handoff`, and `verify_local_execution_claim`.
pub mod Interval
use cognous_agent_control_pl.Base.{
  ℕ, String, Bool, true, false, Option, none, some, List, [], ◌∷◌, ◌||◌, ◌&&◌, not, leb, ◌==◌,
  opt_eq, is_none, get_or, holds, if◌then◌else◌, Dict, fstring, max, min, is_empty,
}
use cognous_agent_control_pl.Base.Outcome.{
  value_error, permission_error, Result, ok, raise, bind, Exec, pure, throw, lift, ◌>>=◌, ◌>>◌,
}
use cognous_agent_control_pl.Bounded.Models.{
  RuntimeProposal, AuthorizationBinding, AuthorizationBinding-discrete, DecisionResult,
  RuntimeDecision, RuntimeDecision-discrete,
}
use cognous_agent_control_pl.Bounded.Documents.{Platform, Grant, Institution, Resolver, parse}
use cognous_agent_control_pl.Bounded.World.{Config}
use cognous_agent_control_pl.Bounded.Store.{RecordFile, lookup_decision}
use cognous_agent_control_pl.Bounded.Observation.{Moment}
use cognous_agent_control_pl.Bounded.Context.{text_or_empty}
use cognous_agent_control_pl.Bounded.Resolve.{resolve}
use cognous_agent_control_pl.Bounded.Decisions.{denied}
use cognous_agent_control_pl.LocalAuthority.Models.{
  ClaimContent, LocalExecutionClaim, OperationPayload, AuthorityState, ClaimDocument,
  AuthoritySnapshot,
}
use cognous_agent_control_pl.LocalAuthority.Projections.{
  refuse_if, Validated, validate_issuance_snapshot,
}

abbrev pub profile_urn : String
profile_urn = "urn:cognous:profiles:local-authority-effect:0.1.0-proposed"

abbrev pub trusted_source : String
trusted_source = "trusted_control_plane_workflow"

-- The arguments, and the identifier that is drawn where none is given.
pub record IssueCall : Type 0 where
  pub proposal : RuntimeProposal
  pub decision : RuntimeDecision
  pub now : Moment
  pub claim_id : Option String
  pub budget_id : Option String
  pub expires_at : Option String
  pub decision_input_commitment : Option String
  pub decision_input_profile_version : Option String
  pub uuid : String

-- `if value:` of an optional text
abbrev pub truthy : Option String → Option String
truthy none = none
truthy (some s) = if s == "" then none else some s

-- `a or b`
abbrev pub or_text : Option String → String → String
or_text o default = get_or default (truthy o)

module _ (p : Platform) (claim_commitment : ClaimDocument → String) where
  -- `_utc` of a text that may be missing or empty
  unfoldable pub utc_optional : Option String → Result (Option ℕ)
  unfolding parse
  utc_optional none = ok none
  utc_optional (some s) = bind (parse p s) (λ t. ok (some t))

  abbrev pub later_of : ℕ → Option ℕ → ℕ
  later_of t none = t
  later_of t (some u) = max t u

  abbrev pub earlier_of : ℕ → Option ℕ → ℕ
  earlier_of t none = t
  earlier_of t (some u) = min t u

  -- The validity interval of a claim.
  unfoldable pub interval_of : IssueCall → ℕ → Grant → Result (ℕ × ℕ)
  unfolding utc_optional refuse_if
  interval_of c now g = bind (parse p g.not_before) (λ granted_from.
      bind (utc_optional (truthy c.proposal.not_before)) (λ proposed_from.
        bind (parse p g.expires_at) (λ granted_until.
          bind (utc_optional (truthy c.proposal.expires_at)) (λ proposed_until.
            bind (utc_optional (truthy c.expires_at)) (λ asked_until.
              let start = later_of granted_from proposed_from in
              let end = earlier_of (earlier_of granted_until proposed_until) asked_until in
              refuse_if (leb end start || leb end now)
                "execution claim has no usable validity interval" (ok (start, end)))))))

  -- `_operation_payload`
  unfoldable pub operation_payload :
      RuntimeProposal → AuthorizationBinding → Institution → Result OperationPayload
  unfolding refuse_if
  operation_payload q b i =
      refuse_if (not (is_none b.tenant_id) && not (opt_eq q.tenant_id b.tenant_id))
        "tenant proposal/binding mismatch"
        (ok (record {
          actor = q.actor;
          principal = q.principal;
          institution_id = i.institution_id;
          authority_domain = i.authority_domain;
          manifest_id = q.manifest_id;
          manifest_version = q.manifest_version;
          manifest_digest = q.manifest_digest;
          action_id = q.action_id;
          adapter_id = q.adapter_id;
          target = q.target;
          payload = q.payload;
          payload_commitment = q.payload_commitment;
          requested_permissions = q.requested_permissions;
          amount = q.amount;
          unit = q.unit;
          effects = q.effects;
          authority_context_id = q.authority_context_ref;
          requirement_id = q.requirement_id;
          grant_id = b.grant_id;
          grant_revision = b.grant_revision;
          tenant_id = b.tenant_id;
        }))

  unfoldable pub authority_state_of : AuthorizationBinding → Validated → AuthorityState
  authority_state_of b v = record {
    grant_id = b.grant_id;
    grant_revision = b.grant_revision;
    grant_status = v.grant_status.status;
    requirement_commitment = b.requirement_commitment;
    approvals = v.approvals;
    policies = v.policies;
    evidence = v.evidence;
  }

  -- The dictionary `raw`, before its own commitment is added.
  unfoldable pub content_of :
      IssueCall → ℕ → AuthorizationBinding → Validated → ℕ × ℕ → OperationPayload → ClaimContent
  unfolding authority_state_of
  content_of c now b v (start, end) payload =
      let q = c.proposal in
      record {
        profile = profile_urn;
        claim_id = or_text c.claim_id c.uuid;
        decision_id = c.decision.decision_id;
        effect_id = c.decision.effect_id;
        institution_id = v.context.institution.institution_id;
        authority_domain = v.context.institution.authority_domain;
        actor = q.actor;
        principal = q.principal;
        grant_id = b.grant_id;
        grant_revision = b.grant_revision;
        grant_status = v.grant_status.status;
        manifest_id = q.manifest_id;
        manifest_version = q.manifest_version;
        manifest_digest = q.manifest_digest;
        action_id = q.action_id;
        adapter_id = q.adapter_id;
        target = q.target;
        payload_commitment = q.payload_commitment;
        requested_permissions = q.requested_permissions;
        amount = q.amount;
        unit = q.unit;
        effects = q.effects;
        authority_context_id = b.authority_context_id;
        requirement_id = b.requirement_id;
        requirement_commitment = b.requirement_commitment;
        operation_commitment = claim_commitment (ClaimDocument.operation payload);
        approval_state = v.approvals;
        approval_state_commitment = claim_commitment (ClaimDocument.approvals v.approvals);
        policy_state = v.policies;
        policy_state_commitment = claim_commitment (ClaimDocument.policies v.policies);
        evidence_state = v.evidence;
        evidence_state_commitment = claim_commitment (ClaimDocument.evidence v.evidence);
        authority_state_commitment =
            claim_commitment (ClaimDocument.authority (authority_state_of b v));
        budget_id = or_text c.budget_id (fstring ("grant:" ∷ b.grant_id ∷ []));
        max_effects = b.effective_max_effects;
        not_before = p.isoformat start;
        expires_at = p.isoformat end;
        issued_at = p.isoformat now;
        decision_input_commitment = c.decision_input_commitment;
        decision_input_profile_version = c.decision_input_profile_version;
        source = trusted_source;
        authorizing_by_possession = false;
        tenant_id = b.tenant_id;
      }

  unfoldable pub claim_of : ClaimContent → LocalExecutionClaim
  claim_of x = record { content = x; claim_commitment = claim_commitment (ClaimDocument.content x) }

  -- `verify_local_execution_claim` of a claim object.
  unfoldable pub verify_claim : LocalExecutionClaim → Bool
  verify_claim x =
      let v = x.content in
      v.profile == profile_urn
      && (v.source == trusted_source
          && (not v.authorizing_by_possession
              && (v.approval_state_commitment
                    == claim_commitment (ClaimDocument.approvals v.approval_state)
                  && (v.policy_state_commitment
                        == claim_commitment (ClaimDocument.policies v.policy_state)
                      && (v.evidence_state_commitment
                            == claim_commitment (ClaimDocument.evidence v.evidence_state)
                          && (v.authority_state_commitment
                                == claim_commitment (
                                    ClaimDocument.authority (record {
                                      grant_id = v.grant_id;
                                      grant_revision = v.grant_revision;
                                      grant_status = v.grant_status;
                                      requirement_commitment = v.requirement_commitment;
                                      approvals = v.approval_state;
                                      policies = v.policy_state;
                                      evidence = v.evidence_state;
                                    }))
                              && x.claim_commitment
                                == claim_commitment (ClaimDocument.content v)))))))
