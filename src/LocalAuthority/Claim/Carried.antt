-- ===== src/LocalAuthority/Claim/Carried.antt =====
-- What the claim that is issued says.
use cognous_agent_control_pl.Base.{ℕ, String, false, ◌≡◌, refl}
use cognous_agent_control_pl.Base.Outcome.{ok}
use cognous_agent_control_pl.Bounded.Models.{RuntimeProposal, AuthorizationBinding}
use cognous_agent_control_pl.Bounded.Documents.{Platform}
use cognous_agent_control_pl.LocalAuthority.Models.{
  LocalExecutionClaim, ClaimDocument, OperationPayload,
}
use cognous_agent_control_pl.LocalAuthority.Projections.{Validated}
use cognous_agent_control_pl.LocalAuthority.Projections.Sound.{refuse_if-ok, same_ok}
use cognous_agent_control_pl.LocalAuthority.Content.{
  IssueCall, operation_payload, authority_state_of, content_of, claim_of,
}

-- The operation is the one of the proposal, in the institution of the context, under the grant.
abbrev pub States : RuntimeProposal → AuthorizationBinding → Validated → OperationPayload → Type 0
States q b v payload = payload ≡ record {
  actor = q.actor;
  principal = q.principal;
  institution_id = v.context.institution.institution_id;
  authority_domain = v.context.institution.authority_domain;
  manifest_id = q.manifest_id;
  manifest_version = q.manifest_version;
  manifest_digest = q.manifest_digest;
  action_id = q.action_id;
  adapter_id = q.adapter_id;
  target = q.target;
  payload = q.payload;
  payload_commitment = q.payload_commitment;
  requested_permissions = q.requested_permissions;
  amount = q.amount;
  unit = q.unit;
  effects = q.effects;
  authority_context_id = q.authority_context_ref;
  requirement_id = q.requirement_id;
  grant_id = b.grant_id;
  grant_revision = b.grant_revision;
  tenant_id = b.tenant_id;
}

module _ (p : Platform) (commit : ClaimDocument → String) where
  pub operation_payload-States :
      (q : RuntimeProposal) (b : AuthorizationBinding) (v : Validated) (payload : OperationPayload)
      → operation_payload p commit q b v.context.institution ≡ ok payload
      → States q b v payload
  unfolding operation_payload
  operation_payload-States q b v payload h = same_ok (refuse_if-ok _ _ _ h).1

  module _ (c : IssueCall) where
    -- What a claim says of the decision, the binding and the state that it was issued from.
    pub record Carries (b : AuthorizationBinding) (v : Validated) (start end : ℕ)
        (payload : OperationPayload) (now : ℕ) (x : LocalExecutionClaim) : Type 0 where
      pub decision :
          (x.content.decision_id ≡ c.decision.decision_id)
          × (x.content.effect_id ≡ c.decision.effect_id)
          × (x.content.decision_input_commitment ≡ c.decision_input_commitment)
          × (x.content.decision_input_profile_version ≡ c.decision_input_profile_version)
      pub parties :
          (x.content.actor ≡ c.proposal.actor)
          × (x.content.principal ≡ c.proposal.principal)
          × (x.content.institution_id ≡ v.context.institution.institution_id)
          × (x.content.authority_domain ≡ v.context.institution.authority_domain)
          × (x.content.tenant_id ≡ b.tenant_id)
      pub grant :
          (x.content.grant_id ≡ b.grant_id)
          × (x.content.grant_revision ≡ b.grant_revision)
          × (x.content.grant_status ≡ v.grant_status.status)
          × (x.content.max_effects ≡ b.effective_max_effects)
          × (x.content.authority_context_id ≡ b.authority_context_id)
          × (x.content.requirement_id ≡ b.requirement_id)
          × (x.content.requirement_commitment ≡ b.requirement_commitment)
      pub manifest :
          (x.content.manifest_id ≡ c.proposal.manifest_id)
          × (x.content.manifest_version ≡ c.proposal.manifest_version)
          × (x.content.manifest_digest ≡ c.proposal.manifest_digest)
      pub operation :
          (x.content.operation_commitment ≡ commit (ClaimDocument.operation payload))
          × (x.content.action_id ≡ c.proposal.action_id)
          × (x.content.adapter_id ≡ c.proposal.adapter_id)
          × (x.content.target ≡ c.proposal.target)
          × (x.content.payload_commitment ≡ c.proposal.payload_commitment)
          × (x.content.requested_permissions ≡ c.proposal.requested_permissions)
          × (x.content.amount ≡ c.proposal.amount)
          × (x.content.unit ≡ c.proposal.unit)
          × (x.content.effects ≡ c.proposal.effects)
      pub state :
          (x.content.approval_state ≡ v.approvals)
          × (x.content.policy_state ≡ v.policies)
          × (x.content.evidence_state ≡ v.evidence)
      pub state_commitments :
          (x.content.approval_state_commitment ≡ commit (ClaimDocument.approvals v.approvals))
          × (x.content.policy_state_commitment ≡ commit (ClaimDocument.policies v.policies))
          × (x.content.evidence_state_commitment ≡ commit (ClaimDocument.evidence v.evidence))
      pub authority :
          x.content.authority_state_commitment
          ≡ commit (
              ClaimDocument.authority (record {
                grant_id = b.grant_id;
                grant_revision = b.grant_revision;
                grant_status = v.grant_status.status;
                requirement_commitment = b.requirement_commitment;
                approvals = v.approvals;
                policies = v.policies;
                evidence = v.evidence;
              }))
      pub interval :
          (x.content.not_before ≡ p.isoformat start)
          × (x.content.expires_at ≡ p.isoformat end)
          × (x.content.issued_at ≡ p.isoformat now)
      pub powerless : x.content.authorizing_by_possession ≡ false
      pub sealed : x.claim_commitment ≡ commit (ClaimDocument.content x.content)

    pub content_of-Carries :
        (b : AuthorizationBinding) (v : Validated) (start end : ℕ) (payload : OperationPayload)
        (now : ℕ)
        → Carries b v start end payload now
            (claim_of p commit (content_of p commit c now b v (start, end) payload))
    unfolding claim_of content_of authority_state_of
    content_of-Carries b v start end payload now = record {
      decision = (refl, refl, refl, refl);
      parties = (refl, refl, refl, refl, refl);
      grant = (refl, refl, refl, refl, refl, refl, refl);
      manifest = (refl, refl, refl);
      operation = (refl, refl, refl, refl, refl, refl, refl, refl, refl);
      state = (refl, refl, refl);
      state_commitments = (refl, refl, refl);
      authority = refl;
      interval = (refl, refl, refl);
      powerless = refl;
      sealed = refl;
    }

    pub carried :
        {b : AuthorizationBinding} {v : Validated} {start end now : ℕ} {payload : OperationPayload}
        {x y : LocalExecutionClaim}
        → x ≡ y
        → Carries b v start end payload now y
        → Carries b v start end payload now x
    carried h k = rw h k
