-- ===== src/Bounded/Status/Obligations.antt =====
-- What the tests of the required approvals and of the evidence establish when they all pass.
use cognous_agent_control_pl.Base.{
  ℕ, String, Bool, true, false, Option, none, some, List, [], ◌∷◌, ◌≡◌, ◌≢◌, refl, ap, ◌∙◌, arith,
  ◌&&◌, ◌||◌, not, ◌==◌, eq_iff, mem, concat_map, All, All-append, append-All, holds→, Bool-cases,
  inl, inr,
}
use cognous_agent_control_pl.Base.Outcome.{ok, Passes, not-false, true_passes}
use cognous_agent_control_pl.Bounded.Models.{
  ApprovalState, ApprovalStatus, EvidenceState, EvidenceStatus,
}
use cognous_agent_control_pl.Bounded.Documents.{
  Platform, ApprovalRequirement, EvidenceObligation, Grant, AuthorityContext, Resolver,
}
use cognous_agent_control_pl.Bounded.World.{Config}
use cognous_agent_control_pl.Bounded.Status.{
  same_institution, is_active_approval, is_current, tenant_differs, reference_checks,
  reference_match, approval_checks, matched_checks, requirement_checks, evidence_unbound,
  obligation_checks, evidence_checks,
}
use cognous_agent_control_pl.Bounded.Status.Facts.{
  IsFresh, IsOf, SameTenant, same_institution-IsOf, stale-IsFresh, same_tenant,
}

-- An approval in the role, found now under a reference of the grant.
pub record ApprovalFound (r : Resolver) (tenant : Option String) (c : AuthorityContext)
    (refs : List String) (role : String) (a : ApprovalStatus) : Type 0 where
  pub listed : mem a.approval_ref refs ≡ true
  pub resolved : r.approval_status a.approval_ref ≡ some a
  pub role_id : a.role_id ≡ role
  pub is_of : IsOf c a.institution_id a.authority_domain
  pub of_tenant : SameTenant tenant a.tenant_id

-- The condition under which a reference gives no approval for the role.
abbrev unmatched : Option String → AuthorityContext → String → String → ApprovalStatus → Bool
unmatched tenant c role ref a =
    not (a.approval_ref == ref)
    || not (same_institution a.institution_id a.authority_domain c.institution)
    || tenant_differs tenant a.tenant_id
    || not (a.role_id == role)

match-found :
    (r : Resolver) (tenant : Option String) (c : AuthorityContext) (refs : List String)
    (role ref : String) (o : Option ApprovalStatus)
    → r.approval_status ref ≡ o
    → mem ref refs ≡ true
    → All (ApprovalFound r tenant c refs role) (reference_match tenant c role ref o)
unfolding reference_match
match-found r tenant c refs role ref none found m = tt
match-found r tenant c refs role ref (some a) found m =
    elim (Bool-cases (unmatched tenant c role ref a)) [
      | inl h ↦ rw h tt
      | inr h ↦
          let same_ref : a.approval_ref ≡ ref = ground (arith, eq_iff a.approval_ref ref) in
          let same : same_institution a.institution_id a.authority_domain c.institution ≡ true =
            ground arith in
          rw h (
            record {
              listed = rw same_ref m;
              resolved = ap r.approval_status same_ref ∙ found;
              role_id = ground (arith, eq_iff a.role_id role);
              is_of = same_institution-IsOf c _ _ same;
              of_tenant = same_tenant tenant a.tenant_id (ground arith);
            },
            tt,
          )
    ]

matches-found :
    (r : Resolver) (tenant : Option String) (c : AuthorityContext) (refs : List String)
    (role : String) (some_refs : List String)
    → ((k : String) → mem k some_refs ≡ true → mem k refs ≡ true)
    → All
        (ApprovalFound r tenant c refs role)
        (concat_map (λ ref. reference_match tenant c role ref (r.approval_status ref)) some_refs)
matches-found r tenant c refs role [] sub = tt
matches-found r tenant c refs role (ref ∷ rest) sub =
    append-All (ApprovalFound r tenant c refs role) _ _
      (match-found r tenant c refs role ref (r.approval_status ref) refl
        (sub ref (ground (arith, eq_iff ref ref))))
      (matches-found r tenant c refs role rest (λ k m. sub k (ground arith)))

module _ (p : Platform) (cfg : Config) (now : ℕ) where
  -- An active, fresh approval of this proposal under this revision of the grant and its policies.
  pub record ApprovalHolds (g : Grant) (actor proposal_commitment : String)
      (req : ApprovalRequirement) (a : ApprovalStatus) : Type 0 where
    pub status : a.status ≡ ApprovalState.active
    pub is_fresh : IsFresh p cfg now a.observed_at cfg.approval_max_age_seconds
    pub grant_id : a.grant_id ≡ g.grant_id
    pub grant_revision : a.grant_revision ≡ g.revision
    pub same_proposal : a.proposal_commitment ≡ proposal_commitment
    pub policy_versions : a.policy_versions ≡ g.policy_versions
    pub independence : req.independent_of_actor ≡ true → a.approver ≢ actor

  active_approval : (s : ApprovalState) → is_active_approval s ≡ true → s ≡ ApprovalState.active
  unfolding is_active_approval
  active_approval s h = ground arith

  independent : (b : Bool) (s t : String) → ok (b && s == t) ≡ ok false → b ≡ true → s ≢ t
  independent b s t h k e = ground (arith, eq_iff s t)

  approval_holds :
      (g : Grant) (actor proposal_commitment : String) (req : ApprovalRequirement)
      (a : ApprovalStatus)
      → All Passes (approval_checks p cfg now g actor proposal_commitment req a)
      → ApprovalHolds g actor proposal_commitment req a
  unfolding approval_checks
  approval_holds g actor q req a (active, (late, (grants, (same, (policies, (independence, _)))))) =
      record {
        status = active_approval _ (not-false _ active);
        is_fresh = stale-IsFresh p cfg now _ _ late;
        grant_id = ground (arith, eq_iff a.grant_id g.grant_id);
        grant_revision = ground (arith, eq_iff a.grant_revision g.revision);
        same_proposal = (eq_iff _ _).0 (not-false _ same);
        policy_versions = holds→ _ (not-false _ policies);
        independence = independent _ _ _ independence;
      }

  matched-first :
      (P : ApprovalStatus → Type 0) (g : Grant) (actor proposal_commitment : String)
      (req : ApprovalRequirement) (collected : List ApprovalStatus)
      → All P collected
      → All Passes (matched_checks p cfg now g actor proposal_commitment req collected)
      → (a : ApprovalStatus) × P a × ApprovalHolds g actor proposal_commitment req a
  unfolding matched_checks
  matched-first P g actor q req [] found h = absurd (true_passes h.0)
  matched-first P g actor q req (a ∷ rest) found h =
      let each = approval_checks p cfg now g actor q req in
      (
        a,
        found.0,
        approval_holds g actor q req a (All-append Passes (each a) (concat_map each rest) h).0,
      )

  -- Each required approval is there, in the role and bound to the operation.
  pub requirement_met :
      (r : Resolver) (tenant : Option String) (c : AuthorityContext) (g : Grant)
      (actor proposal_commitment : String) (req : ApprovalRequirement)
      → All Passes (requirement_checks p cfg now r tenant c g actor proposal_commitment req)
      → (a : ApprovalStatus) × ApprovalFound r tenant c g.approval_refs req.role_id a
        × ApprovalHolds g actor proposal_commitment req a
  unfolding requirement_checks
  requirement_met r tenant c g actor q req h =
      matched-first (ApprovalFound r tenant c g.approval_refs req.role_id) g actor q req _
        (matches-found r tenant c g.approval_refs req.role_id g.approval_refs (λ k m. m))
        (All-append Passes
          (concat_map (λ ref. reference_checks tenant c ref (r.approval_status ref))
            g.approval_refs)
          _ h).1

  -- Evidence that is bound to its obligation, current, and fresh.
  pub record EvidenceHolds (c : AuthorityContext) (o : EvidenceObligation) (e : EvidenceStatus)
      : Type 0 where
    pub obligation_id : e.obligation_id ≡ o.obligation_id
    pub source_ref : e.source_ref ≡ o.source_ref
    pub is_of : IsOf c e.institution_id e.authority_domain
    pub state : e.state ≡ EvidenceState.current
    pub is_fresh : IsFresh p cfg now e.observed_at o.max_age_seconds

  current_evidence : (s : EvidenceState) → is_current s ≡ true → s ≡ EvidenceState.current
  unfolding is_current
  current_evidence s h = ground arith

  obligation_fails :
      (o : EvidenceObligation)
      → (o.required && o.kind == "authorization") ≡ true
      → All Passes (obligation_checks p cfg now o none)
      → ⊥
  unfolding obligation_checks
  obligation_fails o needed h = true_passes (rw needed at h).0

  obligation_current :
      (o : EvidenceObligation) (e : EvidenceStatus)
      → (o.required && o.kind == "authorization") ≡ true
      → All Passes (obligation_checks p cfg now o (some e))
      → (e.state ≡ EvidenceState.current) × IsFresh p cfg now e.observed_at o.max_age_seconds
  unfolding obligation_checks
  obligation_current o e needed h = elim (Bool-cases (is_current e.state)) [
    | inl t ↦ (current_evidence e.state t, stale-IsFresh p cfg now _ _ (rw (needed, t) at h).0)
    | inr t ↦ absurd (true_passes (rw (needed, t) at h).0)
  ]

  evidence_bound :
      (c : AuthorityContext) (o : EvidenceObligation) (e : EvidenceStatus)
      → evidence_unbound c o e ≡ false
      → e.state ≡ EvidenceState.current
      → IsFresh p cfg now e.observed_at o.max_age_seconds
      → EvidenceHolds c o e
  unfolding evidence_unbound
  evidence_bound c o e h now_current is_fresh =
      let same : same_institution e.institution_id e.authority_domain c.institution ≡ true =
        ground arith in
      record {
        obligation_id = ground (arith, eq_iff e.obligation_id o.obligation_id);
        source_ref = ground (arith, eq_iff e.source_ref o.source_ref);
        is_of = same_institution-IsOf c _ _ same;
        state = now_current;
        is_fresh = is_fresh;
      }

  -- Required evidence of authorization is there, bound, current and fresh.
  pub evidence_met :
      (c : AuthorityContext) (o : EvidenceObligation) (s : Option EvidenceStatus)
      → All Passes (evidence_checks p cfg now c o s)
      → (o.required && o.kind == "authorization") ≡ true
      → (e : EvidenceStatus) × (s ≡ some e) × EvidenceHolds c o e
  unfolding evidence_checks
  evidence_met c o none h needed = absurd (obligation_fails o needed h)
  evidence_met c o (some e) h needed = elim (Bool-cases (evidence_unbound c o e)) [
    | inl t ↦ absurd (true_passes (rw t at h).0)
    | inr t ↦
        let (now_current, is_fresh) = obligation_current o e needed (rw t at h) in
        (e, refl, evidence_bound c o e t now_current is_fresh)
  ]
