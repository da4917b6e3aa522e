-- ===== src/Bounded/Changed/Unlisted.antt =====
-- `_effect_time_changed_inputs`: what is not listed has not changed.
use cognous_agent_control_pl.Base.{
  String, Bool, true, false, Option, none, some, eq_iff, List, [], ◌∷◌, ◌≡◌, refl, arith, not, ◌&&◌,
  ◌==◌, concat_map, All, map-All, append-eq-nil,
}
use cognous_agent_control_pl.Bounded.Models.{
  RuntimeProposal, PolicyVersion, PolicyState, PolicyStatus, ApprovalState, EvidenceState,
  AuthorizationBinding, InputType, ApprovalStatus, EvidenceStatus, RoleMappingStatus,
}
use cognous_agent_control_pl.Bounded.Documents.{
  Platform, Committed, EvidenceObligation, Grant, AuthorityContext, Resolver,
}
use cognous_agent_control_pl.Bounded.Status.{is_active_policy, is_active_approval, is_current}
use cognous_agent_control_pl.Bounded.Context.{text_or_empty}
use cognous_agent_control_pl.Bounded.Changed.{
  change, changed_grant, is_bound_policy, changed_policy, is_bound_approval, changed_approval,
  is_current_evidence, changed_evidence, is_bound_mapping, changed_mapping, grant_refs,
  context_refs, context_evidence, context_institution, changed_inputs,
}

change-nil : (t : Bool) (kind : InputType) (k x y : String) → change t kind k x y ≡ [] → t ≡ false
unfolding change
change-nil false kind k x y h = refl
change-nil true kind k x y h = cc

holds_of_nil :
    (t : Bool) (kind : InputType) (k x y : String) → change (not t) kind k x y ≡ [] → t ≡ true
holds_of_nil t kind k x y h = ground (arith, change-nil (not t) kind k x y h)

concat_map-nil :
    {A B : Type 0} (f : A → List B) (xs : List A) → concat_map f xs ≡ [] → All (λ x. f x ≡ []) xs
concat_map-nil f [] h = tt
concat_map-nil f (x ∷ xs) h =
    let parts = append-eq-nil (f x) (concat_map f xs) h in (parts.0, concat_map-nil f xs parts.1)

-- What the observed state must be for nothing to be listed.
abbrev pub PolicyKept : PolicyVersion → Option PolicyStatus → Type 0
PolicyKept item o =
    (s : PolicyStatus) × (o ≡ some s) × (s.version ≡ item.version) × (s.status ≡ PolicyState.active)

pub record ApprovalIsBound (p : Platform) (b : AuthorizationBinding) (a : ApprovalStatus)
    : Type 0 where
  pub grant_id : a.grant_id ≡ b.grant_id
  pub grant_revision : a.grant_revision ≡ b.grant_revision
  pub active : a.status ≡ ApprovalState.active
  pub proposal : a.proposal_commitment ≡ b.proposal_commitment
  pub policies :
      p.commitment (Committed.policy_versions a.policy_versions)
      ≡ p.commitment (Committed.policy_versions b.policy_versions)

abbrev pub ApprovalKept : Platform → AuthorizationBinding → Option ApprovalStatus → Type 0
ApprovalKept p b o = (a : ApprovalStatus) × (o ≡ some a) × ApprovalIsBound p b a

abbrev pub EvidenceKept : Option EvidenceStatus → Type 0
EvidenceKept o = (e : EvidenceStatus) × (o ≡ some e) × (e.state ≡ EvidenceState.current)

abbrev pub MappingKept : AuthorizationBinding → Option RoleMappingStatus → Type 0
MappingKept b o =
    (m : RoleMappingStatus) × (o ≡ some m)
    × (m.version ≡ b.role_mapping_version)
    × (m.digest ≡ b.role_mapping_digest)

both_true : (a b : Bool) → (a && b) ≡ true → (a ≡ true) × (b ≡ true)
both_true a b h = (ground arith, ground arith)

active_policy : (x : PolicyState) → is_active_policy x ≡ true → x ≡ PolicyState.active
unfolding is_active_policy
active_policy PolicyState.active h = refl
active_policy PolicyState.superseded h = cc
active_policy PolicyState.unknown h = cc

active_approval : (x : ApprovalState) → is_active_approval x ≡ true → x ≡ ApprovalState.active
unfolding is_active_approval
active_approval ApprovalState.active h = refl
active_approval ApprovalState.revoked h = cc
active_approval ApprovalState.unknown h = cc

current_evidence : (x : EvidenceState) → is_current x ≡ true → x ≡ EvidenceState.current
unfolding is_current
current_evidence EvidenceState.current h = refl
current_evidence EvidenceState.stale h = cc
current_evidence EvidenceState.unknown h = cc

policy_bound :
    (item : PolicyVersion) (o : Option PolicyStatus)
    → is_bound_policy item o ≡ true
    → PolicyKept item o
unfolding is_bound_policy
policy_bound item none h = cc
policy_bound item (some s) h =
    let (version, active) = both_true _ _ h in
    (s, refl, (eq_iff _ _).0 version, active_policy s.status active)

approval_bound :
    (p : Platform) (b : AuthorizationBinding) (o : Option ApprovalStatus)
    → is_bound_approval p b o ≡ true
    → ApprovalKept p b o
unfolding is_bound_approval
approval_bound p b none h = cc
approval_bound p b (some a) h =
    let (rest, policies) = both_true _ _ h in
    let (rest, proposal) = both_true _ _ rest in
    let (rest, active) = both_true _ _ rest in
    let (grant_id, revision) = both_true _ _ rest in
    (
      a,
      refl,
      record {
        grant_id = (eq_iff _ _).0 grant_id;
        grant_revision = (eq_iff _ _).0 revision;
        active = active_approval a.status active;
        proposal = (eq_iff _ _).0 proposal;
        policies = (eq_iff _ _).0 policies;
      },
    )

evidence_bound : (o : Option EvidenceStatus) → is_current_evidence o ≡ true → EvidenceKept o
unfolding is_current_evidence
evidence_bound none h = cc
evidence_bound (some e) h = (e, refl, current_evidence e.state h)

mapping_bound :
    (b : AuthorizationBinding) (o : Option RoleMappingStatus)
    → is_bound_mapping b o ≡ true
    → MappingKept b o
unfolding is_bound_mapping
mapping_bound b none h = cc
mapping_bound b (some m) h =
    let (version, digest) = both_true _ _ h in
    (m, refl, (eq_iff _ _).0 version, (eq_iff _ _).0 digest)

policy_kept :
    (item : PolicyVersion) (s : Option PolicyStatus)
    → changed_policy item s ≡ []
    → PolicyKept item s
unfolding changed_policy
policy_kept item s h = policy_bound item s (holds_of_nil (is_bound_policy item s) _ _ _ _ h)

approval_kept :
    (p : Platform) (b : AuthorizationBinding) (ref : String) (s : Option ApprovalStatus)
    → changed_approval p b ref s ≡ []
    → ApprovalKept p b s
unfolding changed_approval
approval_kept p b ref s h = approval_bound p b s (holds_of_nil (is_bound_approval p b s) _ _ _ _ h)

evidence_kept :
    (o : EvidenceObligation) (s : Option EvidenceStatus)
    → changed_evidence o s ≡ []
    → (o.required && o.kind == "authorization") ≡ true
    → EvidenceKept s
unfolding changed_evidence
evidence_kept o s h needed = evidence_bound s (ground (arith, change-nil _ _ _ _ _ h))

mapping_kept :
    (b : AuthorizationBinding) (k : String) (s : Option RoleMappingStatus)
    → changed_mapping b k s ≡ []
    → MappingKept b s
unfolding changed_mapping
mapping_kept b k s h = mapping_bound b s (holds_of_nil (is_bound_mapping b s) _ _ _ _ h)

module _ (p : Platform) (r : Resolver) (b : AuthorizationBinding) where
  abbrev ApprovalsKept : Option Grant → Type 0
  ApprovalsKept none = Unit
  ApprovalsKept (some g) = All (λ ref. ApprovalKept p b (r.approval_status ref)) g.approval_refs

  abbrev RequiredKept : EvidenceObligation → Type 0
  RequiredKept o =
      (o.required && o.kind == "authorization") ≡ true
      → EvidenceKept (r.evidence_status o.obligation_id)

  -- What is kept of the context that the proposal names.
  abbrev pub ContextKept : Option AuthorityContext → Type 0
  ContextKept none = MappingKept b (r.role_mapping "")
  ContextKept (some c) =
      ApprovalsKept c.grant
      × All RequiredKept c.requirement.evidence
      × MappingKept b (r.role_mapping c.institution.institution_id)

  grant_kept :
      (o : Option Grant)
      → All (λ ref. ApprovalKept p b (r.approval_status ref)) (grant_refs o)
      → ApprovalsKept o
  grant_kept none h = tt
  grant_kept (some g) h = h

  context_kept :
      (o : Option AuthorityContext)
      → All (λ ref. ApprovalKept p b (r.approval_status ref)) (context_refs o)
      → All RequiredKept (context_evidence o)
      → MappingKept b (r.role_mapping (context_institution o))
      → ContextKept o
  context_kept none approvals evidence mapping = mapping
  context_kept (some c) approvals evidence mapping =
      (grant_kept c.grant approvals, evidence, mapping)

-- If a refusal lists no input, then every policy of the binding is there, active at its bound
-- version; every approval that the grant of the context refers to is there, active, and for the
-- grant, revision, proposal and policies of the binding; all required evidence of authorization is
-- there and current; and the role mapping of the institution is there with the version and digest of
-- the binding.
pub changed_inputs-unlisted :
    (p : Platform) (r : Resolver) (q : RuntimeProposal) (b : AuthorizationBinding)
    → changed_inputs p r q b ≡ []
    → All (λ item. PolicyKept item (r.policy_status item.ref)) b.policy_versions
      × ContextKept p r b (r.authority_context (text_or_empty q.authority_context_ref))
unfolding changed_inputs
changed_inputs-unlisted p r q b h =
    let context = r.authority_context (text_or_empty q.authority_context_ref) in
    let (_, h1) = append-eq-nil (changed_grant b (r.grant_status b.grant_id)) _ h in
    let (policies, h2) = append-eq-nil (concat_map _ b.policy_versions) _ h1 in
    let (approvals, h3) = append-eq-nil (concat_map _ (context_refs context)) _ h2 in
    let (evidence, mapping) = append-eq-nil (concat_map _ (context_evidence context)) _ h3 in
    (
      map-All _ _ (λ item. policy_kept item (r.policy_status item.ref)) b.policy_versions
          (concat_map-nil _ b.policy_versions policies),
      context_kept p r b context
          (map-All _ _ (λ ref. approval_kept p b ref (r.approval_status ref)) (context_refs context)
            (concat_map-nil _ (context_refs context) approvals))
          (map-All _ _ (λ o. evidence_kept o (r.evidence_status o.obligation_id))
            (context_evidence context) (concat_map-nil _ (context_evidence context) evidence))
          (mapping_kept b (context_institution context) _ mapping),
    )
