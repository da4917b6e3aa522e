-- ===== src/Bounded/Status.antt =====
-- src/agent_control_plane/bounded.py: the parts of `_resolve` that test one kind of current status,
-- with `_fresh`, `_same_institution` and `_resolve_role`. Each gives the tests in their order.
pub mod Facts
pub mod Obligations
pub mod Roles
use cognous_agent_control_pl.Base.{
  ℕ, ◌+◌, ◌*◌, String, Bool, true, false, Option, none, some, List, [], ◌∷◌, ◌++◌, ◌&&◌, ◌||◌, not,
  ltb, leb, ◌==◌, opt_eq, mem, is_empty, is_none, if◌then◌else◌, sorted, list_eq, get, holds,
  concat_map, starts_with,
}
use cognous_agent_control_pl.Base.Outcome.{Result, ok, raise, bind, Check}
use cognous_agent_control_pl.Bounded.Models.{
  PolicyVersion, PolicyVersions-discrete, GrantState, GrantStatus, ApprovalState, ApprovalStatus,
  EvidenceState, EvidenceStatus, PolicyState, PolicyStatus, ConflictState, ConflictStatus,
  IdentityStatus, MandateStatus, RoleMappingStatus,
}
use cognous_agent_control_pl.Bounded.Documents.{
  Platform, Committed, Institution, ApprovalRequirement, EvidenceObligation, Grant,
  AuthorityContext, Resolver, parse, second,
}
use cognous_agent_control_pl.Bounded.World.{Config}
use cognous_agent_control_pl.Bounded.Manifest.{check}

-- `_same_institution`, for the two fields that it reads of a record.
unfoldable pub same_institution : String → String → Institution → Bool
same_institution institution_id authority_domain i =
    institution_id == i.institution_id && authority_domain == i.authority_domain

-- A mapping that names exactly one canonical role for the label.
unfoldable pub canonical : List String → List String → Option String
canonical (c ∷ []) required = if starts_with c "urn:" && mem c required then some c else none
canonical _ required = none

abbrev pub or_empty : Option (List String) → List String
or_empty none = []
or_empty (some xs) = xs

unfoldable pub resolve_alias :
    String → List String → String → Option RoleMappingStatus → Option String
unfolding canonical
resolve_alias role required institution_id none = none
resolve_alias role required institution_id (some m) =
    if m.institution_id == institution_id
    then canonical (or_empty (get role m.aliases)) required
    else none

-- `_resolve_role`
unfoldable pub resolve_role :
    Option String → List String → String → Option RoleMappingStatus → Option String
unfolding resolve_alias
resolve_role none required institution_id mapping = none
resolve_role (some role) required institution_id mapping =
    if starts_with role "urn:"
    then (if mem role required then some role else none)
    else resolve_alias role required institution_id mapping

unfoldable pub is_active_grant : GrantState → Bool
is_active_grant GrantState.active = true
is_active_grant _ = false

unfoldable pub is_active_approval : ApprovalState → Bool
is_active_approval ApprovalState.active = true
is_active_approval _ = false

unfoldable pub is_active_policy : PolicyState → Bool
is_active_policy PolicyState.active = true
is_active_policy _ = false

unfoldable pub is_clear : ConflictState → Bool
is_clear ConflictState.clear = true
is_clear _ = false

unfoldable pub is_current : EvidenceState → Bool
is_current EvidenceState.current = true
is_current _ = false

-- `tenant_aware and tenant_id != other`
abbrev pub tenant_differs : Option String → Option String → Bool
tenant_differs none other = false
tenant_differs (some t) other = not (opt_eq other (some t))

-- What the first loop over the approval references notes of one of them.
unfoldable pub reference_checks :
    Option String → AuthorityContext → String → Option ApprovalStatus → List Check
unfolding same_institution
reference_checks tenant c ref none = []
reference_checks tenant c ref (some a) =
    if not (a.approval_ref == ref)
      || not (same_institution a.institution_id a.authority_domain c.institution)
    then check true "approval_binding_mismatch" ∷ []
    else (if tenant_differs tenant a.tenant_id
        then check true "approval_tenant_mismatch" ∷ []
        else [])

-- The approvals that the loop collects for a role.
unfoldable pub reference_match :
    Option String → AuthorityContext → String → String → Option ApprovalStatus → List ApprovalStatus
unfolding same_institution
reference_match tenant c role ref none = []
reference_match tenant c role ref (some a) =
    if not (a.approval_ref == ref)
      || not (same_institution a.institution_id a.authority_domain c.institution)
      || tenant_differs tenant a.tenant_id
      || not (a.role_id == role)
    then []
    else a ∷ []

unfoldable pub evidence_unbound : AuthorityContext → EvidenceObligation → EvidenceStatus → Bool
unfolding same_institution
evidence_unbound c o e =
    not (e.obligation_id == o.obligation_id)
    || not (e.source_ref == o.source_ref)
    || not (same_institution e.institution_id e.authority_domain c.institution)

abbrev pub holds_effect : EvidenceObligation → Bool
holds_effect o = opt_eq o.unknown_behavior (some "hold_effect")

module _ (p : Platform) (cfg : Config) (now : ℕ) where
  -- `_fresh`
  unfoldable pub fresh : String → ℕ → Result Bool
  fresh observed_at max_age_seconds = bind (parse p observed_at) λ observed. ok (
      if ltb (now + cfg.clock_tolerance_seconds * second) observed
      then false
      else leb now (observed + max_age_seconds * second))

  -- `not self._fresh(...)`
  unfoldable pub stale : String → ℕ → Result Bool
  unfolding fresh
  stale observed_at max_age_seconds = bind (fresh observed_at max_age_seconds) (λ b. ok (not b))

  unfoldable pub identity_checks : AuthorityContext → IdentityStatus → List Check
  unfolding same_institution
  identity_checks c i =
      check
        (not (i.identity == c.acting_identity)
          || not (i.principal == c.principal)
          || not (same_institution i.institution_id i.authority_domain c.institution))
        "identity_binding_mismatch"
      ∷ check (not i.authenticated || not i.delegation_valid) "identity_or_delegation_invalid"
      ∷ (stale i.observed_at cfg.identity_max_age_seconds, "identity_status_stale_or_future")
      ∷ []

  unfoldable pub mandate_checks : AuthorityContext → Grant → MandateStatus → List Check
  unfolding same_institution
  mandate_checks c g m =
      check
        (not (m.issuer == g.issuer)
          || not (m.issuer_role == g.issuer_role)
          || not (m.issuance_record_ref == g.issuance_record_ref)
          || not (same_institution m.institution_id m.authority_domain c.institution))
        "issuer_mandate_binding_mismatch"
      ∷ check (not m.mandate_valid) "issuer_mandate_invalid"
      ∷ (stale m.observed_at cfg.mandate_max_age_seconds, "issuer_mandate_stale_or_future")
      ∷ []

  unfoldable pub grant_status_checks :
      Option String → AuthorityContext → Grant → Option GrantStatus → List Check
  unfolding same_institution is_active_grant
  grant_status_checks tenant c g none = check true "grant_not_active" ∷ []
  grant_status_checks tenant c g (some s) =
      check
        (not (s.grant_id == g.grant_id)
          || not (s.status_ref == g.status_ref)
          || not (opt_eq (some s.authority_basis_ref) c.institution.authority_basis_ref)
          || not (same_institution s.institution_id s.authority_domain c.institution))
        "grant_status_binding_mismatch"
      ∷ check (tenant_differs tenant s.tenant_id) "grant_tenant_mismatch"
      ∷ check (not (is_active_grant s.status)) "grant_not_active"
      ∷ check (not (s.revision == g.revision)) "grant_revision_stale"
      ∷ (stale s.observed_at cfg.status_max_age_seconds, "grant_status_stale_or_future")
      ∷ []

  unfoldable pub conflict_checks : AuthorityContext → Option ConflictStatus → List Check
  unfolding same_institution is_clear
  conflict_checks c none = check true "authority_conflict_unresolved" ∷ []
  conflict_checks c (some s) =
      check
        (not (s.requirement_id == c.requirement.requirement_id)
          || not (list_eq (sorted s.conflict_refs) (sorted c.precedence_refs))
          || not (same_institution s.institution_id s.authority_domain c.institution))
        "conflict_status_binding_mismatch"
      ∷ check (not (is_clear s.state)) "authority_conflict_unresolved"
      ∷ (stale s.observed_at cfg.status_max_age_seconds, "conflict_status_stale_or_future")
      ∷ []

  -- The body of the loop over the policy versions of the grant.
  unfoldable pub policy_checks :
      Option String → AuthorityContext → PolicyVersion → Option PolicyStatus → List Check
  unfolding same_institution is_active_policy
  policy_checks tenant c item none = check true "policy_stale_or_changed" ∷ []
  policy_checks tenant c item (some s) =
      check
        (not (s.ref == item.ref)
          || not (same_institution s.institution_id s.authority_domain c.institution))
        "policy_binding_mismatch"
      ∷ check (tenant_differs tenant s.tenant_id) "policy_tenant_mismatch"
      ∷ check (not (is_active_policy s.status) || not (s.version == item.version))
          "policy_stale_or_changed"
      ∷ (stale s.observed_at cfg.status_max_age_seconds, "policy_status_stale_or_future")
      ∷ []

  -- The tests of one collected approval.
  unfoldable pub approval_checks :
      Grant → String → String → ApprovalRequirement → ApprovalStatus → List Check
  unfolding is_active_approval PolicyVersions-discrete
  approval_checks g actor proposal_commitment req a =
      check (not (is_active_approval a.status)) "approval_not_active"
      ∷ (stale a.observed_at cfg.approval_max_age_seconds, "approval_status_stale_or_future")
      ∷ check (not (a.grant_id == g.grant_id) || not (a.grant_revision == g.revision))
          "approval_grant_binding_mismatch"
      ∷ check (not (a.proposal_commitment == proposal_commitment))
          "approval_operation_binding_mismatch"
      ∷ check (not (holds (PolicyVersions-discrete a.policy_versions g.policy_versions)))
          "approval_policy_binding_mismatch"
      ∷ check (req.independent_of_actor && a.approver == actor) "approval_independence_violation"
      ∷ []

  unfoldable pub matched_checks :
      Grant → String → String → ApprovalRequirement → List ApprovalStatus → List Check
  unfolding approval_checks
  matched_checks g actor proposal_commitment req [] = check true "required_approval_missing" ∷ []
  matched_checks g actor proposal_commitment req (a ∷ rest) =
      concat_map (approval_checks g actor proposal_commitment req) (a ∷ rest)

  -- The body of the loop over the required approvals.
  unfoldable pub requirement_checks :
      Resolver
      → Option String
      → AuthorityContext
      → Grant
      → String
      → String
      → ApprovalRequirement
      → List Check
  unfolding reference_checks reference_match matched_checks
  requirement_checks r tenant c g actor proposal_commitment req =
      concat_map (λ ref. reference_checks tenant c ref (r.approval_status ref)) g.approval_refs
      ++ matched_checks g actor proposal_commitment req (
          concat_map (λ ref. reference_match tenant c req.role_id ref (r.approval_status ref))
            g.approval_refs)

  -- The second part of the loop body, where a status that is not bound counts as missing.
  unfoldable pub obligation_checks : EvidenceObligation → Option EvidenceStatus → List Check
  unfolding is_current
  obligation_checks o none =
      if o.required && o.kind == "authorization"
      then check true "required_evidence_not_current" ∷ []
      else (if holds_effect o then check true "context_unknown_requires_hold" ∷ [] else [])
  obligation_checks o (some e) =
      if o.required && o.kind == "authorization"
      then (if is_current e.state
          then (stale e.observed_at o.max_age_seconds, "required_evidence_stale_or_future") ∷ []
          else check true "required_evidence_not_current" ∷ [])
      else (
        bind (stale e.observed_at o.max_age_seconds) (λ b. ok (b && holds_effect o)),
        "context_unknown_requires_hold",
      )
        ∷ []

  -- The body of the loop over the evidence obligations.
  unfoldable pub evidence_checks :
      AuthorityContext → EvidenceObligation → Option EvidenceStatus → List Check
  unfolding evidence_unbound obligation_checks
  evidence_checks c o none = obligation_checks o none
  evidence_checks c o (some e) =
      if evidence_unbound c o e
      then check true "evidence_binding_mismatch" ∷ obligation_checks o none
      else obligation_checks o (some e)
