-- ===== src/LocalAuthority/Projections.antt =====
-- src/agent_control_plane/local_authority_effect.py: `_validate_issuance_snapshot`.
pub mod Sound
pub mod Snapshot
use cognous_agent_control_pl.Base.{
  ℕ, ◌+◌, ◌*◌, String, Bool, true, false, Option, none, some, List, [], ◌∷◌, ◌++◌, ◌||◌, ◌&&◌, not,
  ltb, ◌==◌, opt_eq, is_none, get_or, holds, if◌then◌else◌, Dict, get,
}
use cognous_agent_control_pl.Base.Outcome.{Result, ok, raise, bind}
use cognous_agent_control_pl.Bounded.Models.{
  PolicyVersion, PolicyVersions-discrete, GrantStatus, ApprovalStatus, EvidenceStatus, PolicyStatus,
  AuthorizationBinding,
}
use cognous_agent_control_pl.Bounded.Documents.{
  Platform, Committed, Institution, EvidenceObligation, Requirement, Grant, AuthorityContext, parse,
  second,
}
use cognous_agent_control_pl.Bounded.Status.{
  is_active_grant, is_active_approval, is_active_policy, is_current, tenant_differs,
}
use cognous_agent_control_pl.Bounded.Decisions.{denied}
use cognous_agent_control_pl.LocalAuthority.Models.{
  ApprovalProjection, PolicyProjection, EvidenceProjection, AuthoritySnapshot,
}

-- `if b: raise PermissionError(message)`
unfoldable pub refuse_if : {A : Type 0} → Bool → String → Result A → Result A
refuse_if true message rest = raise (denied message)
refuse_if false message rest = rest

-- `institution_id` and `authority_domain` of a projection are not those of the snapshot.
abbrev pub foreign : Institution → String → String → Bool
foreign i institution_id authority_domain =
    not (institution_id == i.institution_id) || not (authority_domain == i.authority_domain)

-- What the snapshot establishes.
pub record Validated : Type 0 where
  pub context : AuthorityContext
  pub grant : Grant
  pub grant_status : GrantStatus
  pub approvals : List ApprovalProjection
  pub policies : List PolicyProjection
  pub evidence : List EvidenceProjection

module _ (b : AuthorizationBinding) (i : Institution) where
  unfoldable pub grant_status_differs : GrantStatus → Bool
  unfolding is_active_grant
  grant_status_differs s =
      not (s.grant_id == b.grant_id)
      || not (s.revision == b.grant_revision)
      || not (is_active_grant s.status)
      || foreign i s.institution_id s.authority_domain
      || tenant_differs b.tenant_id s.tenant_id

  unfoldable pub approval_differs : String → ApprovalStatus → Bool
  unfolding is_active_approval PolicyVersions-discrete
  approval_differs ref a =
      not (a.approval_ref == ref)
      || not (is_active_approval a.status)
      || not (a.grant_id == b.grant_id)
      || not (a.grant_revision == b.grant_revision)
      || not (a.proposal_commitment == b.proposal_commitment)
      || not (holds (PolicyVersions-discrete a.policy_versions b.policy_versions))
      || foreign i a.institution_id a.authority_domain
      || tenant_differs b.tenant_id a.tenant_id

  unfoldable pub approval_of : String → Option ApprovalStatus → Result ApprovalProjection
  unfolding refuse_if approval_differs
  approval_of ref none = raise (denied "approval state unavailable at claim issuance")
  approval_of ref (some a) =
      refuse_if (approval_differs ref a) "approval projection is not active and binding-consistent"
        (ok (record {
          approval_ref = a.approval_ref;
          role_id = a.role_id;
          approver = a.approver;
          status = a.status;
          grant_id = a.grant_id;
          grant_revision = a.grant_revision;
          proposal_commitment = a.proposal_commitment;
          policy_versions = a.policy_versions;
          observed_at = a.observed_at;
          tenant_id = b.tenant_id;
        }))

  -- The loop over `grant.get("approval_refs", [])`.
  unfoldable pub approvals_of : Dict ApprovalStatus → List String → Result (List ApprovalProjection)
  unfolding approval_of
  approvals_of known [] = ok []
  approvals_of known (ref ∷ refs) =
      bind (approval_of ref (get ref known))
        (λ x. bind (approvals_of known refs) (λ xs. ok (x ∷ xs)))

  unfoldable pub policy_differs : PolicyVersion → PolicyStatus → Bool
  unfolding is_active_policy
  policy_differs item s =
      not (s.ref == item.ref)
      || not (s.version == item.version)
      || not (is_active_policy s.status)
      || foreign i s.institution_id s.authority_domain
      || tenant_differs b.tenant_id s.tenant_id

  unfoldable pub policy_of : PolicyVersion → Option PolicyStatus → Result PolicyProjection
  unfolding refuse_if policy_differs
  policy_of item none = raise (denied "policy state unavailable at claim issuance")
  policy_of item (some s) =
      refuse_if (policy_differs item s) "policy projection is not active and binding-consistent" (
        ok (record {
          ref = s.ref;
          version = s.version;
          status = s.status;
          observed_at = s.observed_at;
          tenant_id = b.tenant_id;
        }))

  -- The loop over `current.policy_versions`.
  unfoldable pub policies_of :
      Dict PolicyStatus → List PolicyVersion → Result (List PolicyProjection)
  unfolding policy_of
  policies_of known [] = ok []
  policies_of known (item ∷ items) =
      bind (policy_of item (get item.ref known))
        (λ x. bind (policies_of known items) (λ xs. ok (x ∷ xs)))

-- `bool(obligation.get("required")) or obligation.get("unknown_behavior") == "hold_effect"`
unfoldable pub is_critical : EvidenceObligation → Bool
is_critical o = o.required || opt_eq o.unknown_behavior (some "hold_effect")

module _ (p : Platform) (tolerance : ℕ) (now : ℕ) (i : Institution) where
  unfoldable pub evidence_foreign : EvidenceObligation → EvidenceStatus → Bool
  evidence_foreign o e =
      not (e.obligation_id == o.obligation_id)
      || not (e.source_ref == o.source_ref)
      || foreign i e.institution_id e.authority_domain

  unfoldable pub evidence_of :
      EvidenceObligation → EvidenceStatus → Result (List EvidenceProjection)
  unfolding refuse_if evidence_foreign is_current is_critical parse
  evidence_of o e = refuse_if (evidence_foreign o e) "evidence projection binding mismatch" (
      refuse_if (is_critical o && not (is_current e.state)) "evidence projection is not current" (
        bind (parse p e.observed_at) (λ observed.
          refuse_if (ltb (now + tolerance * second) observed)
            "evidence projection time is in the future"
            (refuse_if (is_critical o && ltb (observed + o.max_age_seconds * second) now)
              "evidence projection is stale at claim issuance"
              (ok (
                record {
                  obligation_id = e.obligation_id;
                  source_ref = e.source_ref;
                  required = o.required;
                  kind = o.kind;
                  max_age_seconds = o.max_age_seconds;
                  unknown_behavior = get_or "" o.unknown_behavior;
                  state = e.state;
                  observed_at = e.observed_at;
                }
                ∷ []))))))

  unfoldable pub evidence_found :
      EvidenceObligation → Option EvidenceStatus → Result (List EvidenceProjection)
  unfolding refuse_if evidence_of is_critical
  evidence_found o none =
      refuse_if (is_critical o) "decision-relevant evidence state unavailable at claim issuance"
        (ok [])
  evidence_found o (some e) = evidence_of o e

  -- The loop over `requirement.get("evidence", [])`.
  unfoldable pub evidence_all :
      Dict EvidenceStatus → List EvidenceObligation → Result (List EvidenceProjection)
  unfolding evidence_found
  evidence_all known [] = ok []
  evidence_all known (o ∷ os) =
      bind (evidence_found o (get o.obligation_id known))
        (λ xs. bind (evidence_all known os) (λ ys. ok (xs ++ ys)))

-- `approvals_by_ref`, `policies_by_ref`, `evidence_by_id`: a part of the snapshot that must be a
-- `dict`.
unfoldable pub part : {A B : Type 0} → Option A → String → (A → Result B) → Result B
part none message f = raise (denied message)
part (some a) message f = f a

-- The fields that the code reads of `context.get("grant") or {}`.
abbrev grant_differs : AuthorizationBinding → Option Grant → Bool
grant_differs b none = true
grant_differs b (some g) = not (g.grant_id == b.grant_id) || not (g.revision == b.grant_revision)

abbrev grant_tenant : Option Grant → Option String
grant_tenant none = none
grant_tenant (some g) = g.tenant_id

module _ (p : Platform) (tolerance : ℕ) (now : ℕ) (b : AuthorizationBinding) where
  -- From the grant's status on.
  unfoldable pub validate_statuses :
      AuthoritySnapshot → AuthorityContext → Grant → GrantStatus → Result Validated
  unfolding refuse_if grant_status_differs part approvals_of policies_of evidence_all
  validate_statuses snapshot c g s =
      refuse_if (grant_status_differs b c.institution s)
        "grant projection is not active and binding-consistent"
        (part snapshot.approvals "approval snapshot unavailable at claim issuance" (λ known.
          bind (approvals_of b c.institution known g.approval_refs) (λ approvals.
            part snapshot.policies "policy snapshot unavailable at claim issuance" (λ known.
              bind (policies_of b c.institution known b.policy_versions) (λ policies.
                part snapshot.evidence "evidence snapshot unavailable at claim issuance" (λ known.
                  bind (evidence_all p tolerance now c.institution known c.requirement.evidence)
                    (λ evidence. ok (record {
                      context = c;
                      grant = g;
                      grant_status = s;
                      approvals = approvals;
                      policies = policies;
                      evidence = evidence;
                    }))))))))

  -- With the snapshot's grant as the last argument. The institution of a context has both fields, as
  -- its contract requires, so that the test of their presence never raises.
  unfoldable pub validate_context :
      AuthoritySnapshot → AuthorityContext → Option Grant → Result Validated
  unfolding refuse_if part validate_statuses
  validate_context snapshot c g =
      refuse_if
        (tenant_differs b.tenant_id c.tenant_id || tenant_differs b.tenant_id (grant_tenant g))
        "authority snapshot tenant binding mismatch"
        (refuse_if (grant_differs b g) "authority snapshot grant binding mismatch" (
          refuse_if (not (c.requirement.requirement_id == b.requirement_id))
            "authority snapshot requirement binding mismatch"
            (refuse_if
              (not (p.commitment (Committed.requirement c.requirement) == b.requirement_commitment))
              "authority snapshot requirement commitment mismatch"
              (part g "authority snapshot grant binding mismatch" (λ grant.
                part snapshot.grant_status "grant status unavailable at claim issuance"
                  (λ s. validate_statuses snapshot c grant s))))))

  -- `_validate_issuance_snapshot`, of the binding of the decision.
  unfoldable pub validate_issuance_snapshot : AuthoritySnapshot → Result Validated
  unfolding part validate_context
  validate_issuance_snapshot snapshot =
      part snapshot.context "authority snapshot context unavailable"
        (λ c. validate_context snapshot c c.grant)
