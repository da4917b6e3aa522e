-- ===== src/Bounded/Resolve.antt =====
-- src/agent_control_plane/bounded.py: `_resolve`, which compares a proposal with current authority
-- and binds it, and `_effect_id`.
pub mod Agreement
pub mod Invert
pub mod Reasons
pub mod Grounds
pub mod Authorized
use cognous_agent_control_pl.Base.{
  ℕ, String, Bool, true, false, Option, none, some, List, [], ◌∷◌, ◌++◌, ◌&&◌, ◌||◌, not, ltb, leb,
  ◌==◌, opt_eq, mem, is_empty, is_none, if◌then◌else◌, sorted_set, concat_map, min,
}
use cognous_agent_control_pl.Base.Outcome.{Exn, type_error, Result, ok, raise, bind, Check, failing}
use cognous_agent_control_pl.Bounded.Models.{
  RuntimeProposal, RoleMappingStatus, IdentityStatus, AuthorizationBinding,
}
use cognous_agent_control_pl.Bounded.Documents.{
  Platform, Committed, Institution, ApprovalRequirement, Requirement, Grant, AuthorityContext,
  Permission, ManifestAction, EffectLimits, DeclaredAuthority, ReviewRequirement, Resolver, parse,
}
use cognous_agent_control_pl.Bounded.World.{Config}
use cognous_agent_control_pl.Bounded.Manifest.{
  check, find_action, manifest_mismatches, matching_permission,
}
use cognous_agent_control_pl.Bounded.Status.{
  resolve_role, tenant_differs, identity_checks, mandate_checks, grant_status_checks,
  conflict_checks, policy_checks, requirement_checks, evidence_checks,
}
use cognous_agent_control_pl.Bounded.Context.{
  authority_context_version, authority_context_status, text_or_empty, declared_authority,
  context_checks, mapping_checks, effect_id_of, mapping_version, mapping_digest, required_roles,
  review_checks,
}

module _ (p : Platform) (cfg : Config) (r : Resolver) (now : ℕ) where
  -- `_parse(not_before) > now or _parse(expires_at) <= now`
  unfoldable pub outside_validity : Grant → Result Bool
  outside_validity g = bind (parse p g.not_before) λ start. elim (ltb now start) [
    | true ↦ ok true
    | false ↦ bind (parse p g.expires_at) (λ end. ok (leb end now))
  ]

  unfoldable pub grant_checks : RuntimeProposal → AuthorityContext → Grant → List Check
  unfolding outside_validity
  grant_checks q c g =
      check (not (g.requirement_id == c.requirement.requirement_id)) "grant_requirement_mismatch"
      ∷ check (not (g.grantee == c.principal) || not (g.acting_identity == c.acting_identity))
          "grant_identity_mismatch"
      ∷ check (tenant_differs q.tenant_id g.tenant_id) "grant_tenant_mismatch"
      ∷ (outside_validity g, "grant_outside_validity")
      ∷ check (is_none (matching_permission cfg.manifest c.requirement.permissions q))
          "requirement_scope_mismatch"
      ∷ check (is_none (matching_permission cfg.manifest g.permissions q)) "grant_scope_mismatch"
      ∷ []

  unfoldable pub delegation_checks : Grant → IdentityStatus → List Check
  delegation_checks g i =
      check (not (is_none g.parent_grant_id) && is_empty i.chain) "delegation_chain_missing" ∷ []

  unfoldable pub proposal_commitment_of : RuntimeProposal → String
  proposal_commitment_of q = p.commitment (Committed.proposal q)

  -- The tests that precede the grant.
  unfoldable pub prior_checks : RuntimeProposal → AuthorityContext → List Check
  unfolding context_checks mapping_checks review_checks
  prior_checks q c =
      let action = find_action cfg.manifest q.action_id in
      let mapping = r.role_mapping c.institution.institution_id in
      context_checks q c action
      ++ (mapping_checks p c.institution.institution_id mapping ++ review_checks c mapping action)

  -- The tests from the grant on.
  unfoldable pub authority_checks : RuntimeProposal → AuthorityContext → Grant → List Check
  unfolding identity_checks mandate_checks grant_status_checks grant_checks delegation_checks
      conflict_checks policy_checks requirement_checks evidence_checks proposal_commitment_of
  authority_checks q c g =
      let identity = r.identity_status c.acting_identity c.principal in
      identity_checks p cfg now c identity
      ++ (mandate_checks p cfg now c g (r.issuer_mandate g.issuer g.issuer_role)
          ++ (grant_status_checks p cfg now q.tenant_id c g (r.grant_status g.grant_id)
              ++ (grant_checks q c g
                  ++ (delegation_checks g identity
                      ++ (conflict_checks p cfg now c
                            (r.conflict_status c.requirement.requirement_id)
                          ++ (concat_map
                                (λ item.
                                  policy_checks p cfg now q.tenant_id c item
                                    (r.policy_status item.ref))
                                g.policy_versions
                              ++ (concat_map
                                    (λ req.
                                      requirement_checks p cfg now r q.tenant_id c g q.actor
                                        (proposal_commitment_of q) req)
                                    c.requirement.approvals
                                  ++ concat_map
                                      (λ o.
                                        evidence_checks p cfg now c o
                                          (r.evidence_status o.obligation_id))
                                      c.requirement.evidence)))))))

  abbrev action_limit : Option EffectLimits → ℕ → ℕ
  action_limit none effects = effects
  action_limit (some l) effects = elim l.max_effects [ none ↦ effects | some n ↦ n ]

  -- The binding, from the permissions and the action that the tests have found.
  unfoldable pub bound :
      RuntimeProposal
      → AuthorityContext
      → Grant
      → Permission
      → Permission
      → ManifestAction
      → AuthorizationBinding
  unfolding proposal_commitment_of
  bound q c g needed granted a =
      let mapping = r.role_mapping c.institution.institution_id in
      record {
        proposal_commitment = proposal_commitment_of q;
        manifest_id = q.manifest_id;
        manifest_version = q.manifest_version;
        manifest_digest = q.manifest_digest;
        actor = q.actor;
        principal = q.principal;
        action_id = q.action_id;
        adapter_id = q.adapter_id;
        target = q.target;
        payload_commitment = q.payload_commitment;
        requested_permissions = q.requested_permissions;
        amount = q.amount;
        unit = q.unit;
        effects = q.effects;
        authority_context_id = c.context_id;
        authority_context_version = c.schema_version;
        authority_context_status = c.interface_status;
        requirement_id = text_or_empty q.requirement_id;
        requirement_commitment = p.commitment (Committed.requirement c.requirement);
        grant_id = g.grant_id;
        grant_revision = g.revision;
        policy_versions = g.policy_versions;
        role_mapping_version = mapping_version mapping;
        role_mapping_digest = mapping_digest mapping;
        effective_max_effects =
            min (min needed.max_effects granted.max_effects)
              (action_limit a.effect_limits q.effects);
        tenant_id = q.tenant_id;
      }

  abbrev not_subscriptable : Exn
  not_subscriptable = record {
    kind = type_error;
    message = "'NoneType' object is not subscriptable";
  }

  unfoldable pub bind_authority :
      RuntimeProposal
      → AuthorityContext
      → Grant
      → Option Permission
      → Option Permission
      → Option ManifestAction
      → Result AuthorizationBinding
  unfolding bound
  bind_authority q c g (some needed) (some granted) (some a) = ok (bound q c g needed granted a)
  bind_authority q c g _ _ _ = raise not_subscriptable

  unfoldable pub conclude :
      RuntimeProposal
      → AuthorityContext
      → Grant
      → List String
      → Result (List String × Option AuthorizationBinding)
  unfolding bind_authority
  conclude q c g (x ∷ reasons) = ok (sorted_set (x ∷ reasons), none)
  conclude q c g [] =
      bind
        (bind_authority q c g (matching_permission cfg.manifest c.requirement.permissions q)
          (matching_permission cfg.manifest g.permissions q) (find_action cfg.manifest q.action_id))
        (λ b. ok ([], some b))

  unfoldable pub resolve_grant :
      RuntimeProposal
      → AuthorityContext
      → List String
      → Option Grant
      → Result (List String × Option AuthorizationBinding)
  unfolding authority_checks conclude
  resolve_grant q c reasons none = ok (sorted_set (reasons ++ "issued_grant_missing" ∷ []), none)
  resolve_grant q c reasons (some g) =
      bind (failing (authority_checks q c g)) (λ more. conclude q c g (reasons ++ more))

  unfoldable pub resolve_context :
      RuntimeProposal
      → List String
      → Option AuthorityContext
      → Result (List String × Option AuthorizationBinding)
  unfolding prior_checks resolve_grant
  resolve_context q reasons none =
      ok (sorted_set (reasons ++ "authority_context_missing" ∷ []), none)
  resolve_context q reasons (some c) =
      bind (failing (prior_checks q c)) (λ more. resolve_grant q c (reasons ++ more) c.grant)

  -- `_resolve`
  unfoldable pub resolve : RuntimeProposal → Result (List String × Option AuthorizationBinding)
  unfolding resolve_context
  resolve q = bind (manifest_mismatches p cfg.manifest q now) (λ reasons.
      resolve_context q reasons (r.authority_context (text_or_empty q.authority_context_ref)))
