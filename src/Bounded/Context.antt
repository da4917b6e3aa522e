-- ===== src/Bounded/Context.antt =====
-- src/agent_control_plane/bounded.py: the tests of `_resolve` that precede the grant, and `_effect_id`.
use cognous_agent_control_pl.Base.{
  String, Bool, true, false, Option, none, some, List, [], ◌∷◌, ◌&&◌, ◌||◌, not, ◌==◌, opt_eq,
  is_none, if◌then◌else◌,
}
use cognous_agent_control_pl.Base.Outcome.{Check}
use cognous_agent_control_pl.Bounded.Models.{
  RuntimeProposal, RoleMappingStatus, AuthorizationBinding,
}
use cognous_agent_control_pl.Bounded.Documents.{
  Platform, Committed, ApprovalRequirement, AuthorityContext, ManifestAction, DeclaredAuthority,
  ReviewRequirement,
}
use cognous_agent_control_pl.Bounded.Manifest.{check}
use cognous_agent_control_pl.Bounded.Status.{resolve_role, tenant_differs}

abbrev pub authority_context_version : String
authority_context_version = "0.1.0"

abbrev pub authority_context_status : String
authority_context_status = "proposed_pending_governor_review"

-- `proposal.authority_context_ref or ""`
abbrev pub text_or_empty : Option String → String
text_or_empty none = ""
text_or_empty (some s) = s

-- `(action or {}).get("authority_context") or {}`, read through `.get`.
abbrev undeclared : DeclaredAuthority
undeclared = record {
  profile_ref = none;
  requirement_id = none;
  institution_id = none;
  authority_domain = none;
  consequence_tier = none;
}

abbrev or_undeclared : Option DeclaredAuthority → DeclaredAuthority
or_undeclared none = undeclared
or_undeclared (some d) = d

unfoldable pub declared_authority : Option ManifestAction → DeclaredAuthority
declared_authority none = undeclared
declared_authority (some a) = or_undeclared a.authority_context

unfoldable pub context_checks :
    RuntimeProposal → AuthorityContext → Option ManifestAction → List Check
unfolding declared_authority
context_checks q c action =
    let declared = declared_authority action in
    check (tenant_differs q.tenant_id c.tenant_id) "tenant_context_mismatch"
    ∷ check (not (c.schema_version == authority_context_version))
        "authority_context_version_mismatch"
    ∷ check (not (c.interface_status == authority_context_status))
        "authority_context_status_mismatch"
    ∷ check (not (opt_eq (some c.requirement.requirement_id) q.requirement_id))
        "authority_requirement_mismatch"
    ∷ check (not (c.principal == q.principal) || not (c.acting_identity == q.actor))
        "proposal_identity_binding_mismatch"
    ∷ check (not (opt_eq (some c.institution.institution_id) declared.institution_id))
        "institution_mismatch"
    ∷ check (not (opt_eq (some c.institution.authority_domain) declared.authority_domain))
        "authority_domain_mismatch"
    ∷ check (not (opt_eq c.requirement.consequence_tier declared.consequence_tier))
        "consequence_tier_mismatch"
    ∷ []

module _ (p : Platform) where
  unfoldable pub mapping_checks : String → Option RoleMappingStatus → List Check
  mapping_checks institution_id none = check true "role_mapping_missing" ∷ []
  mapping_checks institution_id (some m) =
      check
        (not (m.institution_id == institution_id)
          || not
              (m.digest == p.commitment (Committed.mapping m.institution_id m.version m.aliases)))
        "role_mapping_invalid"
      ∷ []

  -- `_effect_id`
  unfoldable pub effect_id_of : AuthorizationBinding → String
  effect_id_of b =
      p.commitment
        (Committed.effect b.proposal_commitment (some b.grant_id) (some b.grant_revision))

abbrev pub mapping_version : Option RoleMappingStatus → String
mapping_version none = ""
mapping_version (some m) = m.version

abbrev pub mapping_digest : Option RoleMappingStatus → String
mapping_digest none = ""
mapping_digest (some m) = m.digest

-- The role identifiers that are not empty.
unfoldable pub required_roles : List ApprovalRequirement → List String
required_roles [] = []
required_roles (x ∷ xs) =
    let rest = required_roles xs in if x.role_id == "" then rest else x.role_id ∷ rest

abbrev needs_review : Option String → Bool
needs_review none = false
needs_review (some mode) = mode == "human_review" || mode == "approval_required"

review_of : AuthorityContext → Option RoleMappingStatus → Option ReviewRequirement → List Check
review_of c mapping none = []
review_of c mapping (some v) =
    check
      (needs_review v.mode
        && is_none (
            resolve_role v.reviewer_role (required_roles c.requirement.approvals)
              c.institution.institution_id mapping))
      "review_requirement_not_resolved"
    ∷ []

unfoldable pub review_checks :
    AuthorityContext → Option RoleMappingStatus → Option ManifestAction → List Check
unfolding review_of
review_checks c mapping none = []
review_checks c mapping (some a) = review_of c mapping a.review_requirement
