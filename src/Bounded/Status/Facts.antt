-- ===== src/Bounded/Status/Facts.antt =====
-- What the tests of each status establish when they all pass.
use cognous_agent_control_pl.Base.{
  ℕ, ◌+◌, ◌*◌, ◌≤◌, String, true, false, Option, none, some, ◌≡◌, refl, arith, eq_iff, opt_eq,
  opt_eq_iff, All, inl, inr,
}
use cognous_agent_control_pl.Base.Outcome.{ok, Passes, not-false, true_passes, Result-cases}
use cognous_agent_control_pl.Bounded.Models.{
  PolicyVersion, GrantState, GrantStatus, PolicyState, PolicyStatus, ConflictState, ConflictStatus,
  IdentityStatus, MandateStatus,
}
use cognous_agent_control_pl.Bounded.Documents.{Platform, Grant, AuthorityContext, parse, second}
use cognous_agent_control_pl.Bounded.World.{Config}
use cognous_agent_control_pl.Bounded.Status.{
  same_institution, is_active_grant, is_active_policy, is_clear, tenant_differs, stale,
  identity_checks, mandate_checks, grant_status_checks, conflict_checks, policy_checks,
}

-- The time is read, is not later than the tolerance allows, and not older than the age allows.
abbrev pub IsFresh : Platform → Config → ℕ → String → ℕ → Type 0
IsFresh p cfg now observed_at max_age_seconds =
    (t : ℕ) × (parse p observed_at ≡ ok t)
    × (t ≤ now + cfg.clock_tolerance_seconds * second)
    × (now ≤ t + max_age_seconds * second)

-- The record names the institution and the domain of the context.
abbrev pub IsOf : AuthorityContext → String → String → Type 0
IsOf c institution_id authority_domain =
    (institution_id ≡ c.institution.institution_id)
    × (authority_domain ≡ c.institution.authority_domain)

pub same_institution-IsOf :
    (c : AuthorityContext) (i d : String) → same_institution i d c.institution ≡ true → IsOf c i d
unfolding same_institution
same_institution-IsOf c i d h =
    ground (arith, eq_iff i c.institution.institution_id, eq_iff d c.institution.authority_domain)

-- The tenant of a tenant-aware proposal is the record's.
abbrev pub SameTenant : Option String → Option String → Type 0
SameTenant none other = Unit
SameTenant (some t) other = other ≡ some t

pub same_tenant :
    (t other : Option String) → ok (tenant_differs t other) ≡ ok false → SameTenant t other
same_tenant none other h = tt
same_tenant (some t) other h = (opt_eq_iff other (some t)).0 (not-false _ h)

module _ (p : Platform) (cfg : Config) (now : ℕ) where
  pub stale-IsFresh :
      (s : String) (age : ℕ) → stale p cfg now s age ≡ ok false → IsFresh p cfg now s age
  unfolding stale
  stale-IsFresh s age h = elim (Result-cases (parse p s)) [
    | inl (t, r) ↦ (t, r, ground arith, ground arith)
    | inr (e, r) ↦ absurd (ground arith)
  ]

  -- The identity is the acting one of the principal, authenticated, validly delegated, and fresh.
  pub record IdentityHolds (c : AuthorityContext) (i : IdentityStatus) : Type 0 where
    pub identity : i.identity ≡ c.acting_identity
    pub principal : i.principal ≡ c.principal
    pub authenticated : i.authenticated ≡ true
    pub delegation_valid : i.delegation_valid ≡ true
    pub is_of : IsOf c i.institution_id i.authority_domain
    pub is_fresh : IsFresh p cfg now i.observed_at cfg.identity_max_age_seconds

  pub identity_holds :
      (c : AuthorityContext) (i : IdentityStatus)
      → All Passes (identity_checks p cfg now c i)
      → IdentityHolds c i
  unfolding identity_checks
  identity_holds c i (bound, (valid, (late, _))) =
      let same : same_institution i.institution_id i.authority_domain c.institution ≡ true =
        ground arith in
      record {
        identity = ground (arith, eq_iff i.identity c.acting_identity);
        principal = ground (arith, eq_iff i.principal c.principal);
        authenticated = ground arith;
        delegation_valid = ground arith;
        is_of = same_institution-IsOf c _ _ same;
        is_fresh = stale-IsFresh _ _ late;
      }

  -- The mandate is the issuer's, in its role and record, valid, and fresh.
  pub record MandateHolds (c : AuthorityContext) (g : Grant) (m : MandateStatus) : Type 0 where
    pub issuer : m.issuer ≡ g.issuer
    pub issuer_role : m.issuer_role ≡ g.issuer_role
    pub issuance_record_ref : m.issuance_record_ref ≡ g.issuance_record_ref
    pub mandate_valid : m.mandate_valid ≡ true
    pub is_of : IsOf c m.institution_id m.authority_domain
    pub is_fresh : IsFresh p cfg now m.observed_at cfg.mandate_max_age_seconds

  pub mandate_holds :
      (c : AuthorityContext) (g : Grant) (m : MandateStatus)
      → All Passes (mandate_checks p cfg now c g m)
      → MandateHolds c g m
  unfolding mandate_checks
  mandate_holds c g m (bound, (valid, (late, _))) =
      let same : same_institution m.institution_id m.authority_domain c.institution ≡ true =
        ground arith in
      record {
        issuer = ground (arith, eq_iff m.issuer g.issuer);
        issuer_role = ground (arith, eq_iff m.issuer_role g.issuer_role);
        issuance_record_ref = ground (arith, eq_iff m.issuance_record_ref g.issuance_record_ref);
        mandate_valid = ground arith;
        is_of = same_institution-IsOf c _ _ same;
        is_fresh = stale-IsFresh _ _ late;
      }

  -- The grant is active now, at its own revision, for the tenant, and its status is fresh.
  pub record GrantHolds (tenant : Option String) (c : AuthorityContext) (g : Grant)
      (s : GrantStatus) : Type 0 where
    pub grant_id : s.grant_id ≡ g.grant_id
    pub status_ref : s.status_ref ≡ g.status_ref
    pub authority_basis : some s.authority_basis_ref ≡ c.institution.authority_basis_ref
    pub is_of : IsOf c s.institution_id s.authority_domain
    pub same_tenant : SameTenant tenant s.tenant_id
    pub status : s.status ≡ GrantState.active
    pub revision : s.revision ≡ g.revision
    pub is_fresh : IsFresh p cfg now s.observed_at cfg.status_max_age_seconds

  active_grant : (s : GrantState) → is_active_grant s ≡ true → s ≡ GrantState.active
  unfolding is_active_grant
  active_grant s h = ground arith

  grant_record :
      (tenant : Option String) (c : AuthorityContext) (g : Grant) (s : GrantStatus)
      → All Passes (grant_status_checks p cfg now tenant c g (some s))
      → GrantHolds tenant c g s
  unfolding grant_status_checks
  grant_record tenant c g s (bound, (tenants, (active, (revision, (late, _))))) =
      let same : same_institution s.institution_id s.authority_domain c.institution ≡ true =
        ground arith in
      let basis : opt_eq (some s.authority_basis_ref) c.institution.authority_basis_ref ≡ true =
        ground arith in
      record {
        grant_id = ground (arith, eq_iff s.grant_id g.grant_id);
        status_ref = ground (arith, eq_iff s.status_ref g.status_ref);
        authority_basis = (opt_eq_iff _ _).0 basis;
        is_of = same_institution-IsOf c _ _ same;
        same_tenant = same_tenant tenant _ tenants;
        status = active_grant _ (not-false _ active);
        revision = (eq_iff _ _).0 (not-false _ revision);
        is_fresh = stale-IsFresh _ _ late;
      }

  pub grant_holds :
      (tenant : Option String) (c : AuthorityContext) (g : Grant) (o : Option GrantStatus)
      → All Passes (grant_status_checks p cfg now tenant c g o)
      → (s : GrantStatus) × (o ≡ some s) × GrantHolds tenant c g s
  grant_holds tenant c g none h = absurd (true_passes (unfold grant_status_checks in h.0))
  grant_holds tenant c g (some s) h = (s, refl, grant_record tenant c g s h)

  -- No authority conflict is open for the requirement.
  pub record ConflictClear (c : AuthorityContext) (s : ConflictStatus) : Type 0 where
    pub requirement_id : s.requirement_id ≡ c.requirement.requirement_id
    pub is_of : IsOf c s.institution_id s.authority_domain
    pub state : s.state ≡ ConflictState.clear
    pub is_fresh : IsFresh p cfg now s.observed_at cfg.status_max_age_seconds

  clear_state : (s : ConflictState) → is_clear s ≡ true → s ≡ ConflictState.clear
  unfolding is_clear
  clear_state s h = ground arith

  conflict_record :
      (c : AuthorityContext) (s : ConflictStatus)
      → All Passes (conflict_checks p cfg now c (some s))
      → ConflictClear c s
  unfolding conflict_checks
  conflict_record c s (bound, (clear, (late, _))) =
      let same : same_institution s.institution_id s.authority_domain c.institution ≡ true =
        ground arith in
      record {
        requirement_id = ground (arith, eq_iff s.requirement_id c.requirement.requirement_id);
        is_of = same_institution-IsOf c _ _ same;
        state = clear_state _ (not-false _ clear);
        is_fresh = stale-IsFresh _ _ late;
      }

  pub conflict_clear :
      (c : AuthorityContext) (o : Option ConflictStatus)
      → All Passes (conflict_checks p cfg now c o)
      → (s : ConflictStatus) × (o ≡ some s) × ConflictClear c s
  conflict_clear c none h = absurd (true_passes (unfold conflict_checks in h.0))
  conflict_clear c (some s) h = (s, refl, conflict_record c s h)

  -- The policy is active now, at the version that the grant names.
  pub record PolicyHolds (tenant : Option String) (c : AuthorityContext) (item : PolicyVersion)
      (s : PolicyStatus) : Type 0 where
    pub ref : s.ref ≡ item.ref
    pub is_of : IsOf c s.institution_id s.authority_domain
    pub same_tenant : SameTenant tenant s.tenant_id
    pub status : s.status ≡ PolicyState.active
    pub version : s.version ≡ item.version
    pub is_fresh : IsFresh p cfg now s.observed_at cfg.status_max_age_seconds

  active_policy : (s : PolicyState) → is_active_policy s ≡ true → s ≡ PolicyState.active
  unfolding is_active_policy
  active_policy s h = ground arith

  policy_record :
      (tenant : Option String) (c : AuthorityContext) (item : PolicyVersion) (s : PolicyStatus)
      → All Passes (policy_checks p cfg now tenant c item (some s))
      → PolicyHolds tenant c item s
  unfolding policy_checks
  policy_record tenant c item s (bound, (tenants, (active, (late, _)))) =
      let same : same_institution s.institution_id s.authority_domain c.institution ≡ true =
        ground arith in
      let live : is_active_policy s.status ≡ true = ground arith in
      record {
        ref = ground (arith, eq_iff s.ref item.ref);
        is_of = same_institution-IsOf c _ _ same;
        same_tenant = same_tenant tenant _ tenants;
        status = active_policy _ live;
        version = ground (arith, eq_iff s.version item.version);
        is_fresh = stale-IsFresh _ _ late;
      }

  pub policy_holds :
      (tenant : Option String) (c : AuthorityContext) (item : PolicyVersion)
      (o : Option PolicyStatus)
      → All Passes (policy_checks p cfg now tenant c item o)
      → (s : PolicyStatus) × (o ≡ some s) × PolicyHolds tenant c item s
  policy_holds tenant c item none h = absurd (true_passes (unfold policy_checks in h.0))
  policy_holds tenant c item (some s) h = (s, refl, policy_record tenant c item s h)
