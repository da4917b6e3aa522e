-- ===== src/LocalAuthority/Projections/Sound.antt =====
-- What a validated snapshot establishes of its projections.
use cognous_agent_control_pl.Base.{
  or_false_iff, unequal, affirmed, String, Bool, true, false, Option, none, some, List, [], ◌∷◌,
  ◌≡◌, refl, ap, ◌∙◌, All, map, holds→, Dict, get,
}
use cognous_agent_control_pl.Base.Outcome.{Result, ok, bind-eq-ok}
use cognous_agent_control_pl.Bounded.Models.{
  PolicyVersion, PolicyVersions-discrete, GrantState, ApprovalState, ApprovalStatus, EvidenceState,
  PolicyState, PolicyStatus, AuthorizationBinding,
}
use cognous_agent_control_pl.Bounded.Documents.{Institution}
use cognous_agent_control_pl.Bounded.Status.{
  is_active_grant, is_active_approval, is_active_policy, is_current,
}
use cognous_agent_control_pl.LocalAuthority.Models.{ApprovalProjection, PolicyProjection}
use cognous_agent_control_pl.LocalAuthority.Projections.{
  refuse_if, approval_differs, approval_of, approvals_of, policy_differs, policy_of, policies_of,
  part,
}

pub refuse_if-ok :
    {A : Type 0} (b : Bool) (message : String) (rest : Result A) {a : A}
    → refuse_if b message rest ≡ ok a
    → (b ≡ false) × (rest ≡ ok a)
unfolding refuse_if
refuse_if-ok true message rest h = cc
refuse_if-ok false message rest h = (refl, h)

pub part-ok :
    {A B : Type 0} (o : Option A) (message : String) (f : A → Result B) {b : B}
    → part o message f ≡ ok b
    → (a : A) × (o ≡ some a) × (f a ≡ ok b)
unfolding part
part-ok none message f h = cc
part-ok (some a) message f h = (a, refl, h)

pub same_ok : {A : Type 0} {a b : A} → ◌≡◌ {A = Result A} (ok a) (ok b) → b ≡ a
same_ok h = cc

pub active_grant : (x : GrantState) → is_active_grant x ≡ true → x ≡ GrantState.active
unfolding is_active_grant
active_grant GrantState.active h = refl
active_grant GrantState.suspended h = cc
active_grant GrantState.revoked h = cc
active_grant GrantState.unknown h = cc

active_approval : (x : ApprovalState) → is_active_approval x ≡ true → x ≡ ApprovalState.active
unfolding is_active_approval
active_approval ApprovalState.active h = refl
active_approval ApprovalState.revoked h = cc
active_approval ApprovalState.unknown h = cc

active_policy : (x : PolicyState) → is_active_policy x ≡ true → x ≡ PolicyState.active
unfolding is_active_policy
active_policy PolicyState.active h = refl
active_policy PolicyState.superseded h = cc
active_policy PolicyState.unknown h = cc

pub current_evidence : (x : EvidenceState) → is_current x ≡ true → x ≡ EvidenceState.current
unfolding is_current
current_evidence EvidenceState.current h = refl
current_evidence EvidenceState.stale h = cc
current_evidence EvidenceState.unknown h = cc

-- A projected approval is active and of this grant, operation and set of policies.
pub record IsApproved (b : AuthorizationBinding) (x : ApprovalProjection) : Type 0 where
  pub active : x.status ≡ ApprovalState.active
  pub grant : (x.grant_id ≡ b.grant_id) × (x.grant_revision ≡ b.grant_revision)
  pub operation : x.proposal_commitment ≡ b.proposal_commitment
  pub policies : x.policy_versions ≡ b.policy_versions

abbrev pub version_of : PolicyProjection → PolicyVersion
version_of x = record { ref = x.ref; version = x.version }

same_version :
    (item : PolicyVersion) (s : PolicyStatus)
    → s.ref ≡ item.ref
    → s.version ≡ item.version
    → record { ref = s.ref; version = s.version } ≡ item
same_version item s h k = rw (h, k)

module _ (b : AuthorizationBinding) (i : Institution) where
  approval_of-ok :
      (ref : String) (o : Option ApprovalStatus) (x : ApprovalProjection)
      → approval_of b i ref o ≡ ok x
      → IsApproved b x × (x.approval_ref ≡ ref)
  unfolding approval_of
  approval_of-ok ref none x h = cc
  approval_of-ok ref (some a) x h =
      let (differs, done) = refuse_if-ok (approval_differs b i ref a) _ _ h in
      let same = same_ok done in
      let (bound, tenant) = or_false_iff _ _ (unfold approval_differs in differs) in
      let (bound, domain) = or_false_iff _ _ bound in
      let (bound, versions) = or_false_iff _ _ bound in
      let (bound, operation) = or_false_iff _ _ bound in
      let (bound, revision) = or_false_iff _ _ bound in
      let (bound, grant) = or_false_iff _ _ bound in
      let (referred, active) = or_false_iff _ _ bound in
      (
        record {
          active = ap (λ y. y.status) same ∙ active_approval a.status (affirmed _ active);
          grant = (
            ap (λ y. y.grant_id) same ∙ unequal _ _ grant,
            ap (λ y. y.grant_revision) same ∙ unequal _ _ revision,
          );
          operation = ap (λ y. y.proposal_commitment) same ∙ unequal _ _ operation;
          policies =
              ap (λ y. y.policy_versions) same
              ∙ holds→ (PolicyVersions-discrete a.policy_versions b.policy_versions)
                  (affirmed _ versions);
        },
        ap (λ y. y.approval_ref) same ∙ unequal _ _ referred,
      )

  policy_of-ok :
      (item : PolicyVersion) (o : Option PolicyStatus) (x : PolicyProjection)
      → policy_of b i item o ≡ ok x
      → (x.status ≡ PolicyState.active) × (version_of x ≡ item)
  unfolding policy_of
  policy_of-ok item none x h = cc
  policy_of-ok item (some s) x h =
      let (differs, done) = refuse_if-ok (policy_differs b i item s) _ _ h in
      let same = same_ok done in
      let (bound, tenant) = or_false_iff _ _ (unfold policy_differs in differs) in
      let (bound, domain) = or_false_iff _ _ bound in
      let (bound, active) = or_false_iff _ _ bound in
      let (ref, version) = or_false_iff _ _ bound in
      (
        ap (λ y. y.status) same ∙ active_policy s.status (affirmed _ active),
        ap version_of same ∙ same_version item s (unequal _ _ ref) (unequal _ _ version),
      )

  pub approvals_of-ok :
      (known : Dict ApprovalStatus) (refs : List String) (xs : List ApprovalProjection)
      → approvals_of b i known refs ≡ ok xs
      → All (IsApproved b) xs × (map (λ x. x.approval_ref) xs ≡ refs)
  unfolding approvals_of
  approvals_of-ok known [] xs h = let same = same_ok h in rw same (tt, refl)
  approvals_of-ok known (ref ∷ refs) xs h =
      let (x, here, rest) = bind-eq-ok (approval_of b i ref (get ref known)) _ h in
      let (ys, later, done) = bind-eq-ok (approvals_of b i known refs) _ rest in
      let (approved, referred) = approval_of-ok ref (get ref known) x here in
      let (all, same) = approvals_of-ok known refs ys later in
      rw (same_ok done)
        ((approved, all), ap (λ r. r ∷ map (λ x. x.approval_ref) ys) referred ∙ ap (◌∷◌ ref) same)

  pub policies_of-ok :
      (known : Dict PolicyStatus) (items : List PolicyVersion) (xs : List PolicyProjection)
      → policies_of b i known items ≡ ok xs
      → All (λ (x : PolicyProjection). x.status ≡ PolicyState.active) xs
        × (map version_of xs ≡ items)
  unfolding policies_of
  policies_of-ok known [] xs h = let same = same_ok h in rw same (tt, refl)
  policies_of-ok known (item ∷ items) xs h =
      let (x, here, rest) = bind-eq-ok (policy_of b i item (get item.ref known)) _ h in
      let (ys, later, done) = bind-eq-ok (policies_of b i known items) _ rest in
      let (active, version) = policy_of-ok item (get item.ref known) x here in
      let (all, same) = policies_of-ok known items ys later in
      rw (same_ok done)
        ((active, all), ap (λ v. v ∷ map version_of ys) version ∙ ap (◌∷◌ item) same)
