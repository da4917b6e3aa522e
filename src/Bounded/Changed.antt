-- ===== src/Bounded/Changed.antt =====
-- src/agent_control_plane/bounded.py: `_effect_time_changed_inputs`, the versions that a refusal
-- records.
pub mod Unlisted
use cognous_agent_control_pl.Base.{
  String, Bool, true, false, Option, none, some, List, [], ◌∷◌, ◌++◌, ◌&&◌, not, ◌==◌, fstring,
  concat_map,
}
use cognous_agent_control_pl.Bounded.Models.{
  RuntimeProposal, PolicyVersion, GrantState, GrantStatus, ApprovalState, ApprovalStatus,
  EvidenceState, EvidenceStatus, PolicyState, PolicyStatus, RoleMappingStatus, AuthorizationBinding,
  InputType, RefusalInputVersion,
}
use cognous_agent_control_pl.Bounded.Documents.{
  Platform, Committed, Grant, EvidenceObligation, AuthorityContext, Resolver,
}
use cognous_agent_control_pl.Bounded.Status.{
  is_active_grant, is_active_approval, is_active_policy, is_current,
}
use cognous_agent_control_pl.Bounded.Context.{text_or_empty}

unfoldable pub grant_text : GrantState → String
grant_text GrantState.active = "active"
grant_text GrantState.suspended = "suspended"
grant_text GrantState.revoked = "revoked"
grant_text GrantState.unknown = "unknown"

unfoldable pub approval_text : ApprovalState → String
approval_text ApprovalState.active = "active"
approval_text ApprovalState.revoked = "revoked"
approval_text ApprovalState.unknown = "unknown"

unfoldable pub policy_text : PolicyState → String
policy_text PolicyState.active = "active"
policy_text PolicyState.superseded = "superseded"
policy_text PolicyState.unknown = "unknown"

unfoldable pub evidence_text : EvidenceState → String
evidence_text EvidenceState.current = "current"
evidence_text EvidenceState.stale = "stale"
evidence_text EvidenceState.unknown = "unknown"

-- `changed.append(...)` where the test is true.
change : Bool → InputType → String → String → String → List RefusalInputVersion
change false kind input_id expected observed = []
change true kind input_id expected observed =
    record {
      input_type = kind;
      input_id = input_id;
      expected_version = expected;
      observed_version = observed;
    }
    ∷ []

observed_grant : Option GrantStatus → String
unfolding grant_text
observed_grant none = "missing"
observed_grant (some s) =
    fstring
      ("revision=" ∷ s.revision ∷ ";status=" ∷ grant_text s.status ∷ ";version=" ∷ s.version ∷ [])

unfoldable pub is_bound_grant : AuthorizationBinding → Option GrantStatus → Bool
is_bound_grant b none = false
is_bound_grant b (some s) = s.revision == b.grant_revision && is_active_grant s.status

unfoldable pub changed_grant : AuthorizationBinding → Option GrantStatus → List RefusalInputVersion
unfolding change observed_grant is_bound_grant
changed_grant b status =
    let expected = fstring ("revision=" ∷ b.grant_revision ∷ ";status=active" ∷ []) in
    change (not (observed_grant status == expected) && not (is_bound_grant b status))
      InputType.grant b.grant_id expected (observed_grant status)

unfoldable pub is_bound_policy : PolicyVersion → Option PolicyStatus → Bool
is_bound_policy item none = false
is_bound_policy item (some s) = s.version == item.version && is_active_policy s.status

observed_policy : Option PolicyStatus → String
unfolding policy_text
observed_policy none = "missing"
observed_policy (some s) = fstring ("version=" ∷ s.version ∷ ";status=" ∷ policy_text s.status ∷ [])

unfoldable pub changed_policy : PolicyVersion → Option PolicyStatus → List RefusalInputVersion
unfolding change observed_policy is_bound_policy
changed_policy item status =
    change (not (is_bound_policy item status)) InputType.policy item.ref
      (fstring ("version=" ∷ item.version ∷ ";status=active" ∷ [])) (observed_policy status)

module _ (p : Platform) where
  unfoldable pub is_bound_approval : AuthorizationBinding → Option ApprovalStatus → Bool
  is_bound_approval b none = false
  is_bound_approval b (some a) =
      a.grant_id == b.grant_id
      && a.grant_revision == b.grant_revision
      && is_active_approval a.status
      && a.proposal_commitment == b.proposal_commitment
      && p.commitment (Committed.policy_versions a.policy_versions)
        == p.commitment (Committed.policy_versions b.policy_versions)

  observed_approval : Option ApprovalStatus → String
  unfolding approval_text
  observed_approval none = "missing"
  observed_approval (some a) = fstring (
      "grant_revision="
      ∷ a.grant_revision
      ∷ ";status="
      ∷ approval_text a.status
      ∷ ";proposal="
      ∷ a.proposal_commitment
      ∷ ";policies="
      ∷ p.commitment (Committed.policy_versions a.policy_versions)
      ∷ [])

  unfoldable pub changed_approval :
      AuthorizationBinding → String → Option ApprovalStatus → List RefusalInputVersion
  unfolding change observed_approval is_bound_approval
  changed_approval b ref status =
      change (not (is_bound_approval b status)) InputType.approval ref
        (fstring (
          "grant_revision="
          ∷ b.grant_revision
          ∷ ";status=active;proposal="
          ∷ b.proposal_commitment
          ∷ ";policies="
          ∷ p.commitment (Committed.policy_versions b.policy_versions)
          ∷ []))
        (observed_approval status)

unfoldable pub is_current_evidence : Option EvidenceStatus → Bool
is_current_evidence none = false
is_current_evidence (some e) = is_current e.state

observed_evidence : Option EvidenceStatus → String
unfolding evidence_text
observed_evidence none = "missing"
observed_evidence (some e) =
    fstring ("state=" ∷ evidence_text e.state ∷ ";observed_at=" ∷ e.observed_at ∷ [])

unfoldable pub changed_evidence :
    EvidenceObligation → Option EvidenceStatus → List RefusalInputVersion
unfolding change observed_evidence is_current_evidence
changed_evidence o status =
    change (o.required && o.kind == "authorization" && not (is_current_evidence status))
      InputType.evidence o.obligation_id "state=current" (observed_evidence status)

unfoldable pub is_bound_mapping : AuthorizationBinding → Option RoleMappingStatus → Bool
is_bound_mapping b none = false
is_bound_mapping b (some m) =
    m.version == b.role_mapping_version && m.digest == b.role_mapping_digest

observed_mapping : Option RoleMappingStatus → String
observed_mapping none = "missing"
observed_mapping (some m) = fstring ("version=" ∷ m.version ∷ ";digest=" ∷ m.digest ∷ [])

unfoldable pub changed_mapping :
    AuthorizationBinding → String → Option RoleMappingStatus → List RefusalInputVersion
unfolding change observed_mapping is_bound_mapping
changed_mapping b institution_id mapping =
    change (not (is_bound_mapping b mapping)) InputType.role_mapping institution_id
      (fstring ("version=" ∷ b.role_mapping_version ∷ ";digest=" ∷ b.role_mapping_digest ∷ []))
      (observed_mapping mapping)

-- What is read of a context that may be missing, or have no grant.
abbrev grant_refs : Option Grant → List String
grant_refs none = []
grant_refs (some g) = g.approval_refs

abbrev pub context_refs : Option AuthorityContext → List String
context_refs none = []
context_refs (some c) = grant_refs c.grant

abbrev pub context_evidence : Option AuthorityContext → List EvidenceObligation
context_evidence none = []
context_evidence (some c) = c.requirement.evidence

abbrev pub context_institution : Option AuthorityContext → String
context_institution none = ""
context_institution (some c) = c.institution.institution_id

-- `_effect_time_changed_inputs`
unfoldable pub changed_inputs :
    Platform → Resolver → RuntimeProposal → AuthorizationBinding → List RefusalInputVersion
unfolding changed_grant changed_policy changed_approval changed_evidence changed_mapping
changed_inputs p r q b =
    let context = r.authority_context (text_or_empty q.authority_context_ref) in
    let institution_id = context_institution context in
    changed_grant b (r.grant_status b.grant_id)
    ++ (concat_map (λ item. changed_policy item (r.policy_status item.ref)) b.policy_versions
        ++ (concat_map (λ ref. changed_approval p b ref (r.approval_status ref))
              (context_refs context)
            ++ (concat_map (λ o. changed_evidence o (r.evidence_status o.obligation_id))
                  (context_evidence context)
                ++ changed_mapping b institution_id (r.role_mapping institution_id))))
