-- ===== src/Bounded/Resolve/Authorized.antt =====
-- `_resolve`: what a binding means of the proposal, the documents and the statuses.
use cognous_agent_control_pl.Base.{
  ℕ, ◌≤◌, String, true, Option, some, List, [], ◌≡◌, refl, arith, ◌==◌, ◌&&◌, All, All-concat_map,
  map-All,
}
use cognous_agent_control_pl.Base.Outcome.{ok, Passes}
use cognous_agent_control_pl.Bounded.Models.{
  RuntimeProposal, GrantStatus, ApprovalStatus, PolicyStatus, ConflictStatus, EvidenceStatus,
  RoleMappingStatus, AuthorizationBinding,
}
use cognous_agent_control_pl.Bounded.Documents.{
  Platform, Committed, AuthorityContext, Grant, Permission, ManifestAction, Resolver,
}
use cognous_agent_control_pl.Bounded.World.{Config}
use cognous_agent_control_pl.Bounded.Manifest.{find_action, matching_permission}
use cognous_agent_control_pl.Bounded.Manifest.Declared.{IsDeclared}
use cognous_agent_control_pl.Bounded.Manifest.Complete.{manifest_mismatches_iff}
use cognous_agent_control_pl.Bounded.Manifest.Scope.{IsCovered, Covering, matching_permission-first}
use cognous_agent_control_pl.Bounded.Status.Facts.{
  IdentityHolds, identity_holds, MandateHolds, mandate_holds, GrantHolds, grant_holds,
  ConflictClear, conflict_clear, PolicyHolds, policy_holds,
}
use cognous_agent_control_pl.Bounded.Status.Obligations.{
  ApprovalFound, ApprovalHolds, requirement_met, EvidenceHolds, evidence_met,
}
use cognous_agent_control_pl.Bounded.Resolve.{proposal_commitment_of, bound, resolve}
use cognous_agent_control_pl.Bounded.Context.{text_or_empty}
use cognous_agent_control_pl.Bounded.Resolve.Agreement.{
  ContextHolds, context_holds, MappingHolds, mapping_holds, prior_groups,
}
use cognous_agent_control_pl.Bounded.Resolve.Invert.{IsBound, resolve-IsBound}
use cognous_agent_control_pl.Bounded.Resolve.Grounds.{GrantIsValid, grant_valid, authority_groups}

-- The fields of a binding that are copied from the proposal and from the documents.
pub record Binds (p : Platform) (q : RuntimeProposal) (c : AuthorityContext) (g : Grant)
    (b : AuthorizationBinding) : Type 0 where
  pub proposal : b.proposal_commitment ≡ p.commitment (Committed.proposal q)
  pub identity : (b.actor ≡ q.actor) × (b.principal ≡ q.principal)
  pub operation :
      (b.action_id ≡ q.action_id)
      × (b.adapter_id ≡ q.adapter_id)
      × (b.target ≡ q.target)
      × (b.payload_commitment ≡ q.payload_commitment)
  pub manifest :
      (b.manifest_id ≡ q.manifest_id)
      × (b.manifest_version ≡ q.manifest_version)
      × (b.manifest_digest ≡ q.manifest_digest)
  pub limits :
      (b.requested_permissions ≡ q.requested_permissions)
      × (b.amount ≡ q.amount)
      × (b.unit ≡ q.unit)
      × (b.effects ≡ q.effects)
  pub context : b.authority_context_id ≡ c.context_id
  pub requirement : b.requirement_commitment ≡ p.commitment (Committed.requirement c.requirement)
  pub policies : b.policy_versions ≡ g.policy_versions
  pub tenant : b.tenant_id ≡ q.tenant_id

module _ (p : Platform) (cfg : Config) (r : Resolver) (now : ℕ) where
  -- The documents and the statuses of the time of the call that stand behind a binding.
  pub record IsAuthorized (q : RuntimeProposal) (b : AuthorizationBinding) : Type 0 where
    -- the context is the one that the proposal names, and the grant is the one in it
    pub context : AuthorityContext
    pub context_found : r.authority_context (text_or_empty q.authority_context_ref) ≡ some context
    pub grant : Grant
    pub grant_found : context.grant ≡ some grant
    pub action : ManifestAction
    -- the proposal is the declared operation
    pub action_found : find_action cfg.manifest q.action_id ≡ some action
    pub declared : IsDeclared p cfg.manifest q now action
    -- the context is for this proposal, and its roles are mapped
    pub agrees : ContextHolds q context action
    pub mapped :
        (m : RoleMappingStatus) × (r.role_mapping context.institution.institution_id ≡ some m)
        × MappingHolds p context m
    -- the actor, the issuer and the grant are current
    pub identity :
        IdentityHolds p cfg now context
          (r.identity_status context.acting_identity context.principal)
    pub mandate :
        MandateHolds p cfg now context grant (r.issuer_mandate grant.issuer grant.issuer_role)
    pub status :
        (s : GrantStatus) × (r.grant_status grant.grant_id ≡ some s)
        × GrantHolds p cfg now q.tenant_id context grant s
    pub valid : GrantIsValid p cfg r now q context grant
    pub clear :
        (s : ConflictStatus) × (r.conflict_status context.requirement.requirement_id ≡ some s)
        × ConflictClear p cfg now context s
    -- every policy version of the grant is current, and every required approval is there
    pub policies :
        All
          (λ item.
            (s : PolicyStatus) × (r.policy_status item.ref ≡ some s)
            × PolicyHolds p cfg now q.tenant_id context item s)
          grant.policy_versions
    pub approvals :
        All
          (λ req.
            (a : ApprovalStatus) × ApprovalFound r q.tenant_id context grant.approval_refs
              req.role_id a
            × ApprovalHolds p cfg now grant q.actor (p.commitment (Committed.proposal q)) req a)
          context.requirement.approvals
    pub evidence :
        All
          (λ o.
            (o.required && o.kind == "authorization") ≡ true
            → (e : EvidenceStatus) × (r.evidence_status o.obligation_id ≡ some e)
              × EvidenceHolds p cfg now context o e)
          context.requirement.evidence
    -- the requirement and the grant both permit it, and the binding keeps the smaller allowance
    pub needed : Permission
    pub granted : Permission
    pub permitted : IsCovered action q needed × IsCovered action q granted
    pub of_requirement :
        matching_permission cfg.manifest context.requirement.permissions q ≡ some needed
    pub of_grant : matching_permission cfg.manifest grant.permissions q ≡ some granted
    pub allowance :
        (b.effective_max_effects ≤ needed.max_effects)
        × (b.effective_max_effects ≤ granted.max_effects)
    pub same_grant : (b.grant_id ≡ grant.grant_id) × (b.grant_revision ≡ grant.revision)
    pub binds : Binds p q context grant b

  same_found : {o : Option ManifestAction} {a b : ManifestAction} → o ≡ some a → o ≡ some b → b ≡ a
  same_found h k = cc

  IsCovered-by :
      (q : RuntimeProposal) (xs : List Permission) (x : Permission) (a : ManifestAction)
      → matching_permission cfg.manifest xs q ≡ some x
      → find_action cfg.manifest q.action_id ≡ some a
      → IsCovered a q x
  IsCovered-by q xs x a h found =
      let first : Covering cfg.manifest xs q (some x) =
        rw h at (matching_permission-first cfg.manifest xs q) in
      let same : first.0 ≡ a = same_found found first.3 in rw same at first.5

  bound-allowance :
      (q : RuntimeProposal) (c : AuthorityContext) (g : Grant) (n k : Permission)
      (a : ManifestAction)
      → ((bound p cfg r now q c g n k a).effective_max_effects ≤ n.max_effects)
        × ((bound p cfg r now q c g n k a).effective_max_effects ≤ k.max_effects)
  unfolding bound
  bound-allowance q c g n k a = (omega arith, omega arith)

  bound-Binds :
      (q : RuntimeProposal) (c : AuthorityContext) (g : Grant) (n k : Permission)
      (a : ManifestAction)
      → Binds p q c g (bound p cfg r now q c g n k a)
  unfolding bound proposal_commitment_of
  bound-Binds q c g n k a = record {
    proposal = refl;
    identity = (refl, refl);
    operation = (refl, refl, refl, refl);
    manifest = (refl, refl, refl);
    limits = (refl, refl, refl, refl);
    context = refl;
    requirement = refl;
    policies = refl;
    tenant = refl;
  }

  is_authorized :
      (q : RuntimeProposal) (b : AuthorizationBinding) → IsBound p cfg r now q b → IsAuthorized q b
  unfolding proposal_commitment_of
  is_authorized q b v =
      let c = v.context in
      let g = v.grant in
      let (i, m, s, valid, k, policies, approvals, evidence) =
        authority_groups p cfg r now q c g v.authority in
      let before = prior_groups p cfg r now q c v.prior in
      let declared = (manifest_mismatches_iff p now cfg.manifest q).0 v.no_mismatch in
      let same : declared.0 ≡ v.action = same_found v.action_found declared.1 in
      record {
        context = c;
        context_found = v.context_found;
        grant = g;
        grant_found = v.grant_found;
        action = v.action;
        action_found = v.action_found;
        declared = rw same at declared.2;
        agrees = context_holds q c v.action (rw v.action_found at before.0);
        mapped = mapping_holds p c (r.role_mapping c.institution.institution_id) before.1;
        identity = identity_holds p cfg now c _ i;
        mandate = mandate_holds p cfg now c g _ m;
        status = grant_holds p cfg now q.tenant_id c g _ s;
        valid = grant_valid p cfg r now q c g valid;
        clear = conflict_clear p cfg now c _ k;
        policies =
            map-All _ _
              (λ item. policy_holds p cfg now q.tenant_id c item (r.policy_status item.ref))
              g.policy_versions (All-concat_map Passes _ g.policy_versions policies);
        approvals =
            map-All _ _ (requirement_met p cfg now r q.tenant_id c g q.actor _)
              c.requirement.approvals (All-concat_map Passes _ c.requirement.approvals approvals);
        evidence =
            map-All _ _ (λ o. evidence_met p cfg now c o (r.evidence_status o.obligation_id))
              c.requirement.evidence (All-concat_map Passes _ c.requirement.evidence evidence);
        needed = v.needed;
        granted = v.granted;
        permitted = (
          IsCovered-by q c.requirement.permissions v.needed v.action v.needed_found v.action_found,
          IsCovered-by q g.permissions v.granted v.action v.granted_found v.action_found,
        );
        of_requirement = v.needed_found;
        of_grant = v.granted_found;
        allowance = rw v.binding (bound-allowance q c g v.needed v.granted v.action);
        same_grant = rw v.binding (unfold bound in (refl, refl));
        binds = rw v.binding (bound-Binds q c g v.needed v.granted v.action);
      }

  -- A proposal resolves to a binding only without reasons, and only with the context that it names and
  -- the grant in it: the proposal is the operation that the manifest declares and the one of the
  -- context, the roles are mapped, the identity, the issuer, the grant and its policies are current, the
  -- required approvals and evidence are there, current and bound to the proposal, no conflict is open,
  -- and the requirement and the grant both permit it. The binding is of that proposal and grant, and
  -- allows no more effects than either permission.
  pub resolve-IsAuthorized :
      (q : RuntimeProposal) (rs : List String) (b : AuthorizationBinding)
      → resolve p cfg r now q ≡ ok (rs, some b)
      → (rs ≡ []) × IsAuthorized q b
  resolve-IsAuthorized q rs b h =
      let (none_left, v) = resolve-IsBound p cfg r now q rs b h in (none_left, is_authorized q b v)
