-- ===== src/Bounded/Resolve/Grounds.antt =====
-- `_resolve`: the groups of its tests, and what those of the grant establish.
use cognous_agent_control_pl.Base.{
  ℕ, ◌≤◌, ◌<◌, true, false, List, ◌++◌, ◌≡◌, refl, arith, eq_iff, ltb, leb, concat_map, All,
  All-append, Bool-cases, inl, inr,
}
use cognous_agent_control_pl.Base.Outcome.{Result, ok, raise, bind, Check, Passes, Result-cases}
use cognous_agent_control_pl.Bounded.Models.{RuntimeProposal}
use cognous_agent_control_pl.Bounded.Documents.{Platform, AuthorityContext, Grant, Resolver, parse}
use cognous_agent_control_pl.Bounded.World.{Config}
use cognous_agent_control_pl.Bounded.Status.{
  identity_checks, mandate_checks, grant_status_checks, conflict_checks, policy_checks,
  requirement_checks, evidence_checks,
}
use cognous_agent_control_pl.Bounded.Status.Facts.{SameTenant, same_tenant}
use cognous_agent_control_pl.Bounded.Resolve.{
  authority_checks, grant_checks, delegation_checks, outside_validity, proposal_commitment_of,
}

-- Nine groups of tests, one after another.
nine_groups :
    (a b c d e f g h i : List Check)
    → All Passes (a ++ (b ++ (c ++ (d ++ (e ++ (f ++ (g ++ (h ++ i))))))))
    → All Passes a
      × All Passes b
      × All Passes c
      × All Passes d
      × All Passes f
      × All Passes g
      × All Passes h
      × All Passes i
nine_groups a b c d e f g h i x =
    let (xa, x1) = All-append Passes a _ x in
    let (xb, x2) = All-append Passes b _ x1 in
    let (xc, x3) = All-append Passes c _ x2 in
    let (xd, x4) = All-append Passes d _ x3 in
    let (xe, x5) = All-append Passes e _ x4 in
    let (xf, x6) = All-append Passes f _ x5 in
    let (xg, x7) = All-append Passes g _ x6 in
    let (xh, xi) = All-append Passes h _ x7 in (xa, xb, xc, xd, xf, xg, xh, xi)

module _ (p : Platform) (cfg : Config) (r : Resolver) (now : ℕ) where
  -- The grant has begun and not ended, and is to the principal and the actor of the context.
  pub record GrantIsValid (q : RuntimeProposal) (c : AuthorityContext) (g : Grant) : Type 0 where
    pub of_requirement : g.requirement_id ≡ c.requirement.requirement_id
    pub grantee : g.grantee ≡ c.principal
    pub acting_identity : g.acting_identity ≡ c.acting_identity
    pub of_tenant : SameTenant q.tenant_id g.tenant_id
    pub start : ℕ
    pub end : ℕ
    pub starts : parse p g.not_before ≡ ok start
    pub started : start ≤ now
    pub ends : parse p g.expires_at ≡ ok end
    pub not_ended : now < end

  validity :
      (a b : Result ℕ)
      → bind a (λ start. elim (ltb now start) [
        | true ↦ ok true
        | false ↦ bind b (λ end. ok (leb end now))
      ])
        ≡ ok false
      → (start : ℕ) × (end : ℕ) × (a ≡ ok start) × (start ≤ now) × (b ≡ ok end) × (now < end)
  validity (raise e) b h = cc
  validity (ok start) b h = elim (Bool-cases (ltb now start)) [
    | inl t ↦ absurd (ground arith)
    | inr t ↦ elim (Result-cases b) [
      | inl (end, e) ↦ (start, end, refl, ground arith, e, ground arith)
      | inr (e, k) ↦ absurd (ground arith)
    ]
  ]

  pub grant_valid :
      (q : RuntimeProposal) (c : AuthorityContext) (g : Grant)
      → All Passes (grant_checks p cfg r now q c g)
      → GrantIsValid q c g
  unfolding grant_checks outside_validity
  grant_valid q c g (requirement, (identity, (tenant, (validity_test, _)))) =
      let times = validity (parse p g.not_before) (parse p g.expires_at) validity_test in
      record {
        of_requirement = ground (arith, eq_iff g.requirement_id c.requirement.requirement_id);
        grantee = ground (arith, eq_iff g.grantee c.principal);
        acting_identity = ground (arith, eq_iff g.acting_identity c.acting_identity);
        of_tenant = same_tenant q.tenant_id g.tenant_id tenant;
        start = times.0;
        end = times.1;
        starts = times.2;
        started = times.3;
        ends = times.4;
        not_ended = times.5;
      }

  pub authority_groups :
      (q : RuntimeProposal) (c : AuthorityContext) (g : Grant)
      → All Passes (authority_checks p cfg r now q c g)
      → All Passes (identity_checks p cfg now c (r.identity_status c.acting_identity c.principal))
        × All Passes (mandate_checks p cfg now c g (r.issuer_mandate g.issuer g.issuer_role))
        × All Passes (grant_status_checks p cfg now q.tenant_id c g (r.grant_status g.grant_id))
        × All Passes (grant_checks p cfg r now q c g)
        × All Passes (conflict_checks p cfg now c (r.conflict_status c.requirement.requirement_id))
        × All Passes (
            concat_map
              (λ item. policy_checks p cfg now q.tenant_id c item (r.policy_status item.ref))
              g.policy_versions)
        × All Passes (
            concat_map
              (λ req.
                requirement_checks p cfg now r q.tenant_id c g q.actor
                  (proposal_commitment_of p cfg r now q)
                  req)
              c.requirement.approvals)
        × All Passes (
            concat_map
              (λ o. evidence_checks p cfg now c o (r.evidence_status o.obligation_id))
              c.requirement.evidence)
  unfolding authority_checks
  authority_groups q c g h =
      let identity = r.identity_status c.acting_identity c.principal in
      nine_groups (identity_checks p cfg now c identity)
        (mandate_checks p cfg now c g (r.issuer_mandate g.issuer g.issuer_role))
        (grant_status_checks p cfg now q.tenant_id c g (r.grant_status g.grant_id))
        (grant_checks p cfg r now q c g) (delegation_checks p cfg r now g identity)
        (conflict_checks p cfg now c (r.conflict_status c.requirement.requirement_id))
        (concat_map (λ item. policy_checks p cfg now q.tenant_id c item (r.policy_status item.ref))
          g.policy_versions)
        (concat_map
          (λ req.
            requirement_checks p cfg now r q.tenant_id c g q.actor
              (proposal_commitment_of p cfg r now q) req)
          c.requirement.approvals)
        (concat_map (λ o. evidence_checks p cfg now c o (r.evidence_status o.obligation_id))
          c.requirement.evidence)
        h
