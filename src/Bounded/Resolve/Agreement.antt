-- ===== src/Bounded/Resolve/Agreement.antt =====
-- `_resolve`: what the tests that precede the grant establish.
use cognous_agent_control_pl.Base.{
  ℕ, String, false, Option, none, some, ◌≡◌, refl, sym, not, ◌||◌, ◌==◌, opt_eq, opt_eq_iff,
  or_false_iff, unequal, affirmed, All, All-append,
}
use cognous_agent_control_pl.Base.Outcome.{ok, Passes, false_of_ok, true_passes}
use cognous_agent_control_pl.Bounded.Models.{RuntimeProposal, RoleMappingStatus}
use cognous_agent_control_pl.Bounded.Documents.{
  Platform, Committed, AuthorityContext, ManifestAction, Resolver,
}
use cognous_agent_control_pl.Bounded.World.{Config}
use cognous_agent_control_pl.Bounded.Manifest.{find_action}
use cognous_agent_control_pl.Bounded.Status.Facts.{SameTenant, same_tenant}
use cognous_agent_control_pl.Bounded.Context.{
  authority_context_version, authority_context_status, declared_authority, context_checks,
  mapping_checks,
}
use cognous_agent_control_pl.Bounded.Resolve.{prior_checks}

-- The context is of the tenant, the requirement, the principal and the actor of the proposal, and
-- of the institution that the manifest declares for the action.
pub record ContextHolds (q : RuntimeProposal) (c : AuthorityContext) (a : ManifestAction)
    : Type 0 where
  pub tenant : SameTenant q.tenant_id c.tenant_id
  pub version : c.schema_version ≡ authority_context_version
  pub status : c.interface_status ≡ authority_context_status
  pub requirement : q.requirement_id ≡ some c.requirement.requirement_id
  pub principal : c.principal ≡ q.principal
  pub actor : c.acting_identity ≡ q.actor
  pub institution : (declared_authority (some a)).institution_id ≡ some c.institution.institution_id
  pub domain : (declared_authority (some a)).authority_domain ≡ some c.institution.authority_domain
  pub tier : c.requirement.consequence_tier ≡ (declared_authority (some a)).consequence_tier

-- The mapping is of the institution, and its digest is that of its content.
pub record MappingHolds (p : Platform) (c : AuthorityContext) (m : RoleMappingStatus) : Type 0 where
  pub institution : m.institution_id ≡ c.institution.institution_id
  pub digest : m.digest ≡ p.commitment (Committed.mapping m.institution_id m.version m.aliases)

same_text : (s t : String) → ok (not (s == t)) ≡ ok false → s ≡ t
same_text s t h = unequal s t (false_of_ok _ h)

both_texts : (s t u v : String) → ok (not (s == t) || not (u == v)) ≡ ok false → (s ≡ t) × (u ≡ v)
both_texts s t u v h =
    let (a, b) = or_false_iff _ _ (false_of_ok _ h) in (unequal s t a, unequal u v b)

same_option : (s t : Option String) → ok (not (opt_eq s t)) ≡ ok false → s ≡ t
same_option s t h = (opt_eq_iff s t).0 (affirmed _ (false_of_ok _ h))

pub context_holds :
    (q : RuntimeProposal) (c : AuthorityContext) (a : ManifestAction)
    → All Passes (context_checks q c (some a))
    → ContextHolds q c a
unfolding context_checks
context_holds q c a h =
    let identity = both_texts c.principal q.principal c.acting_identity q.actor h.1.1.1.1.0 in
    record {
      tenant = same_tenant q.tenant_id c.tenant_id h.0;
      version = same_text _ _ h.1.0;
      status = same_text _ _ h.1.1.0;
      requirement = sym (same_option _ _ h.1.1.1.0);
      principal = identity.0;
      actor = identity.1;
      institution = sym (same_option _ _ h.1.1.1.1.1.0);
      domain = sym (same_option _ _ h.1.1.1.1.1.1.0);
      tier = same_option _ _ h.1.1.1.1.1.1.1.0;
    }

pub mapping_holds :
    (p : Platform) (c : AuthorityContext) (o : Option RoleMappingStatus)
    → All Passes (mapping_checks p c.institution.institution_id o)
    → (m : RoleMappingStatus) × (o ≡ some m) × MappingHolds p c m
unfolding mapping_checks
mapping_holds p c none h = absurd (true_passes h.0)
mapping_holds p c (some m) h =
    let (i, d) = both_texts _ _ _ _ h.0 in (m, refl, record { institution = i; digest = d })

module _ (p : Platform) (cfg : Config) (r : Resolver) (now : ℕ) where
  pub prior_groups :
      (q : RuntimeProposal) (c : AuthorityContext)
      → All Passes (prior_checks p cfg r now q c)
      → All Passes (context_checks q c (find_action cfg.manifest q.action_id))
        × All Passes (
            mapping_checks p c.institution.institution_id
              (r.role_mapping c.institution.institution_id))
  unfolding prior_checks
  prior_groups q c h =
      let (a, rest) =
        All-append Passes (context_checks q c (find_action cfg.manifest q.action_id)) _ h in
      (
        a,
        (All-append Passes
            (mapping_checks p c.institution.institution_id
              (r.role_mapping c.institution.institution_id))
            _ rest).0,
      )
