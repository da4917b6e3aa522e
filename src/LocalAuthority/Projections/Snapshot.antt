-- ===== src/LocalAuthority/Projections/Snapshot.antt =====
-- What a validated snapshot establishes as a whole.
use cognous_agent_control_pl.Base.{
  or_false_iff, unequal, affirmed, ℕ, ◌+◌, ◌*◌, ◌≤◌, Bool, true, false, Option, none, some, List,
  [], ◌∷◌, ◌≡◌, refl, ◌∙◌, ◌&&◌, not, ltb, ltb→le, All, map, arith, Dict, get,
}
use cognous_agent_control_pl.Base.Outcome.{ok, bind-eq-ok}
use cognous_agent_control_pl.Bounded.Models.{
  GrantState, GrantStatus, EvidenceState, EvidenceStatus, PolicyState, AuthorizationBinding,
}
use cognous_agent_control_pl.Bounded.Documents.{
  Platform, Committed, EvidenceObligation, Grant, Institution, AuthorityContext, parse, second,
}
use cognous_agent_control_pl.Bounded.Status.{is_current}
use cognous_agent_control_pl.LocalAuthority.Models.{
  PolicyProjection, EvidenceProjection, AuthoritySnapshot,
}
use cognous_agent_control_pl.LocalAuthority.Projections.{
  Validated, grant_status_differs, approvals_of, policies_of, is_critical, evidence_foreign,
  evidence_of, evidence_found, evidence_all, grant_differs, validate_statuses, validate_context,
  validate_issuance_snapshot,
}
use cognous_agent_control_pl.LocalAuthority.Projections.Sound.{
  refuse_if-ok, part-ok, same_ok, active_grant, current_evidence, IsApproved, version_of,
  approvals_of-ok, policies_of-ok,
}

module _ (p : Platform) (tolerance : ℕ) (now : ℕ) where
  -- Critical evidence is current, and was observed at a time that is neither too old nor too far in
  -- the future.
  pub record IsFresh (o : EvidenceObligation) (e : EvidenceStatus) : Type 0 where
    pub source : e.source_ref ≡ o.source_ref
    pub current : e.state ≡ EvidenceState.current
    pub observed : ℕ
    pub read : parse p e.observed_at ≡ ok observed
    pub past : observed ≤ now + tolerance * second
    pub recent : now ≤ observed + o.max_age_seconds * second

  abbrev pub IsEvidenced : Dict EvidenceStatus → EvidenceObligation → Type 0
  IsEvidenced known o =
      is_critical o ≡ true
      → (e : EvidenceStatus) × (get o.obligation_id known ≡ some e) × IsFresh o e

  -- What a snapshot has established when it is accepted for the binding.
  pub record IsValidated (b : AuthorizationBinding) (s : AuthoritySnapshot) (v : Validated)
      : Type 0 where
    pub context : s.context ≡ some v.context
    pub grant : v.context.grant ≡ some v.grant
    pub same_grant : (v.grant.grant_id ≡ b.grant_id) × (v.grant.revision ≡ b.grant_revision)
    pub same_requirement :
        (v.context.requirement.requirement_id ≡ b.requirement_id)
        × (p.commitment (Committed.requirement v.context.requirement) ≡ b.requirement_commitment)
    pub status : s.grant_status ≡ some v.grant_status
    pub active :
        (v.grant_status.status ≡ GrantState.active)
        × (v.grant_status.grant_id ≡ b.grant_id)
        × (v.grant_status.revision ≡ b.grant_revision)
    pub approvals : All (IsApproved b) v.approvals
    pub approved : map (λ x. x.approval_ref) v.approvals ≡ v.grant.approval_refs
    pub policies : All (λ (x : PolicyProjection). x.status ≡ PolicyState.active) v.policies
    pub versions : map version_of v.policies ≡ b.policy_versions
    pub known : Dict EvidenceStatus
    pub evidence : s.evidence ≡ some known
    pub evidenced : All (IsEvidenced known) v.context.requirement.evidence

  module _ (i : Institution) where
    critical_and : (a b : Bool) → (a && b) ≡ false → a ≡ true → b ≡ false
    critical_and a b h k = ground arith

    evidence_of-ok :
        (o : EvidenceObligation) (e : EvidenceStatus) (xs : List EvidenceProjection)
        → evidence_of p tolerance now i o e ≡ ok xs
        → is_critical o ≡ true
        → IsFresh o e
    unfolding evidence_of
    evidence_of-ok o e xs h critical =
        let (bound, rest) = refuse_if-ok (evidence_foreign p tolerance now i o e) _ _ h in
        let (state, rest) = refuse_if-ok (is_critical o && not (is_current e.state)) _ _ rest in
        let (t, read, rest) = bind-eq-ok (parse p e.observed_at) _ rest in
        let (past, rest) = refuse_if-ok (ltb (now + tolerance * second) t) _ _ rest in
        let (recent, _) =
          refuse_if-ok (is_critical o && ltb (t + o.max_age_seconds * second) now) _ _ rest in
        let bound' = (or_false_iff _ _ (unfold evidence_foreign in bound)).0 in
        record {
          source = unequal _ _ (or_false_iff _ _ bound').1;
          current = current_evidence e.state (affirmed _ (critical_and _ _ state critical));
          observed = t;
          read = read;
          past = ltb→le _ _ past;
          recent = ltb→le _ _ (critical_and _ _ recent critical);
        }

    evidence_found-ok :
        (o : EvidenceObligation) (s : Option EvidenceStatus) (xs : List EvidenceProjection)
        → evidence_found p tolerance now i o s ≡ ok xs
        → is_critical o ≡ true
        → (e : EvidenceStatus) × (s ≡ some e) × IsFresh o e
    unfolding evidence_found
    evidence_found-ok o none xs h critical =
        absurd (ground (arith, (refuse_if-ok (is_critical o) _ _ h).0))
    evidence_found-ok o (some e) xs h critical = (e, refl, evidence_of-ok o e xs h critical)

    evidence_all-ok :
        (known : Dict EvidenceStatus) (os : List EvidenceObligation) (xs : List EvidenceProjection)
        → evidence_all p tolerance now i known os ≡ ok xs
        → All (IsEvidenced known) os
    unfolding evidence_all
    evidence_all-ok known [] xs h = tt
    evidence_all-ok known (o ∷ os) xs h =
        let (ys, here, rest) =
          bind-eq-ok (evidence_found p tolerance now i o (get o.obligation_id known)) _ h in
        let (zs, later, done) = bind-eq-ok (evidence_all p tolerance now i known os) _ rest in
        (
          λ critical. evidence_found-ok o (get o.obligation_id known) ys here critical,
          evidence_all-ok known os zs later,
        )

  module _ (b : AuthorizationBinding) (s : AuthoritySnapshot) (v : Validated) where
    validate_statuses-ok :
        (c : AuthorityContext) (g : Grant) (st : GrantStatus)
        → s.context ≡ some c
        → c.grant ≡ some g
        → (g.grant_id ≡ b.grant_id) × (g.revision ≡ b.grant_revision)
        → (c.requirement.requirement_id ≡ b.requirement_id)
          × (p.commitment (Committed.requirement c.requirement) ≡ b.requirement_commitment)
        → s.grant_status ≡ some st
        → validate_statuses p tolerance now b s c g st ≡ ok v
        → IsValidated b s v
    unfolding validate_statuses
    validate_statuses-ok c g st context grant same_grant same_requirement status h =
        let (bound, rest) = refuse_if-ok (grant_status_differs b c.institution st) _ _ h in
        let (_, _, rest) = part-ok s.approvals _ _ rest in
        let (xs, approved, rest) =
          bind-eq-ok (approvals_of b c.institution _ g.approval_refs) _ rest in
        let (_, _, rest) = part-ok s.policies _ _ rest in
        let (ys, versions, rest) =
          bind-eq-ok (policies_of b c.institution _ b.policy_versions) _ rest in
        let (known, evidence, rest) = part-ok s.evidence _ _ rest in
        let (zs, evidenced, done) =
          bind-eq-ok (evidence_all p tolerance now c.institution known c.requirement.evidence) _
            rest in
        let (bound, _) = or_false_iff _ _ (unfold grant_status_differs in bound) in
        let (bound, _) = or_false_iff _ _ bound in
        let (bound, active) = or_false_iff _ _ bound in
        let (grant_id, revision) = or_false_iff _ _ bound in
        let approvals = approvals_of-ok b c.institution _ g.approval_refs xs approved in
        let policies = policies_of-ok b c.institution _ b.policy_versions ys versions in
        rw (same_ok done) (record {
          context = context;
          grant = grant;
          same_grant = same_grant;
          same_requirement = same_requirement;
          status = status;
          active = (
            active_grant st.status (affirmed _ active),
            unequal _ _ grant_id,
            unequal _ _ revision,
          );
          approvals = approvals.0;
          approved = approvals.1;
          policies = policies.0;
          versions = policies.1;
          known = known;
          evidence = evidence;
          evidenced = evidence_all-ok c.institution known c.requirement.evidence zs evidenced;
        })

    same_named_grant :
        (g : Grant)
        → grant_differs b (some g) ≡ false
        → (g.grant_id ≡ b.grant_id) × (g.revision ≡ b.grant_revision)
    same_named_grant g h = let (x, y) = or_false_iff _ _ h in (unequal _ _ x, unequal _ _ y)

    validate_context-ok :
        (c : AuthorityContext) (o : Option Grant)
        → s.context ≡ some c
        → c.grant ≡ o
        → validate_context p tolerance now b s c o ≡ ok v
        → IsValidated b s v
    unfolding validate_context
    validate_context-ok c o context grant h =
        let (_, rest) = refuse_if-ok _ _ _ h in
        let (differs, rest) = refuse_if-ok (grant_differs b o) _ _ rest in
        let (requirement, rest) = refuse_if-ok _ _ _ rest in
        let (commitment, rest) = refuse_if-ok _ _ _ rest in
        let (g, found, rest) = part-ok o _ _ rest in
        let (st, status, rest) = part-ok s.grant_status _ _ rest in
        validate_statuses-ok c g st context (grant ∙ found)
          (same_named_grant g (rw found at differs))
          (unequal _ _ requirement, unequal _ _ commitment) status rest

    -- An accepted snapshot is of the grant and requirement of the binding, its grant is active, the
    -- projected approvals are those of the grant, each active and given for this grant, operation and
    -- policies, the projected policies are those of the binding, all active, and critical evidence is
    -- current, from its source, and neither too old nor from the future.
    pub validate_issuance_snapshot-IsValidated :
        validate_issuance_snapshot p tolerance now b s ≡ ok v → IsValidated b s v
    unfolding validate_issuance_snapshot
    validate_issuance_snapshot-IsValidated h =
        let (c, context, rest) = part-ok s.context _ _ h in
        validate_context-ok c c.grant context refl rest
