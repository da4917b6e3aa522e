-- ===== src/Bounded/Synthetic.antt =====
-- src/agent_control_plane/bounded.py: `SyntheticResolver`, which answers from dictionaries, and
-- reports an identity or an issuer that it does not know as invalid.
use cognous_agent_control_pl.Base.{
  String, true, false, Option, none, some, List, [], ◌∷◌, ◌≡◌, refl, sym, ap, ◌∙◌, Dict, get, put,
  fstring,
}
use cognous_agent_control_pl.Base.{ℕ}
use cognous_agent_control_pl.Base.Outcome.{ok}
use cognous_agent_control_pl.Bounded.Models.{
  RuntimeProposal, PolicyVersion, GrantStatus, ApprovalStatus, EvidenceStatus, PolicyStatus,
  ConflictStatus, IdentityStatus, MandateStatus, RoleMappingStatus, AuthorizationBinding,
}
use cognous_agent_control_pl.Bounded.Documents.{
  Platform, EvidenceObligation, Grant, AuthorityContext, Resolver,
}
use cognous_agent_control_pl.Bounded.World.{Config}
use cognous_agent_control_pl.Bounded.Context.{text_or_empty}
use cognous_agent_control_pl.Bounded.Resolve.{resolve}
use cognous_agent_control_pl.Bounded.Resolve.Authorized.{resolve-IsAuthorized}

-- The dictionaries of `__init__`.
pub record Registry : Type 0 where
  pub contexts : Dict AuthorityContext
  pub statuses : Dict GrantStatus
  pub identities : Dict IdentityStatus
  pub mandates : Dict MandateStatus
  pub approvals : Dict ApprovalStatus
  pub policies : Dict PolicyStatus
  pub conflicts : Dict ConflictStatus
  pub evidence : Dict EvidenceStatus
  pub role_mappings : Dict RoleMappingStatus

-- `clock` is the text of what `_now()` reads.
unfoldable pub known_identity : String → String → String → Option IdentityStatus → IdentityStatus
known_identity clock acting_identity principal (some i) = i
known_identity clock acting_identity principal none = record {
  identity = acting_identity;
  principal = principal;
  authenticated = false;
  delegation_valid = false;
  observed_at = clock;
  institution_id = "urn:cognous:institution:unknown";
  authority_domain = "unknown";
  chain = [];
}

unfoldable pub known_mandate : String → String → String → Option MandateStatus → MandateStatus
known_mandate clock issuer issuer_role (some m) = m
known_mandate clock issuer issuer_role none = record {
  issuer = issuer;
  issuer_role = issuer_role;
  issuance_record_ref = "urn:cognous:issuance:unknown";
  mandate_valid = false;
  observed_at = clock;
  institution_id = "urn:cognous:institution:unknown";
  authority_domain = "unknown";
}

abbrev pub mandate_key : String → String → String
mandate_key issuer issuer_role = fstring (issuer ∷ "|" ∷ issuer_role ∷ [])

unfoldable pub synthetic : Registry → String → Resolver
unfolding known_identity known_mandate get
synthetic d clock = record {
  authority_context = λ ref. get ref d.contexts;
  grant_status = λ k. get k d.statuses;
  identity_status = λ i p. known_identity clock i p (get i d.identities);
  issuer_mandate = λ i r. known_mandate clock i r (get (mandate_key i r) d.mandates);
  approval_status = λ k. get k d.approvals;
  policy_status = λ k. get k d.policies;
  conflict_status = λ k. get k d.conflicts;
  evidence_status = λ k. get k d.evidence;
  role_mapping = λ k. get k d.role_mappings;
}

-- What `authority_effect_snapshot` returns.
pub record Snapshot : Type 0 where
  pub context : AuthorityContext
  pub grant_status : Option GrantStatus
  pub approvals : Dict ApprovalStatus
  pub policies : Dict PolicyStatus
  pub evidence : Dict EvidenceStatus

-- `{k: d[k] for k in ks if k in d}`
unfoldable pub restrict : {A : Type 0} → Dict A → Dict A → List String → Dict A
unfolding get put
restrict d acc [] = acc
restrict d acc (k ∷ ks) = elim (get k d) [
  | none ↦ restrict d acc ks
  | some v ↦ restrict d (put k v acc) ks
]

abbrev policy_refs : List PolicyVersion → List String
policy_refs [] = []
policy_refs (v ∷ vs) = v.ref ∷ policy_refs vs

abbrev obligation_ids : List EvidenceObligation → List String
obligation_ids [] = []
obligation_ids (o ∷ os) = o.obligation_id ∷ obligation_ids os

snapshot_grant : Registry → AuthorityContext → Option Grant → Snapshot
unfolding restrict
snapshot_grant d c none = record {
  context = c;
  grant_status = none;
  approvals = [];
  policies = [];
  evidence = restrict d.evidence [] (obligation_ids c.requirement.evidence);
}
snapshot_grant d c (some g) = record {
  context = c;
  grant_status = get g.grant_id d.statuses;
  approvals = restrict d.approvals [] g.approval_refs;
  policies = restrict d.policies [] (policy_refs g.policy_versions);
  evidence = restrict d.evidence [] (obligation_ids c.requirement.evidence);
}

unfoldable pub authority_effect_snapshot : Registry → String → Option Snapshot
unfolding snapshot_grant
authority_effect_snapshot d ref = elim (get ref d.contexts) [
  | none ↦ none
  | some c ↦ some (snapshot_grant d c c.grant)
]

known-authenticated :
    (clock i p : String) (o : Option IdentityStatus)
    → (known_identity clock i p o).authenticated ≡ true
    → (s : IdentityStatus) × (o ≡ some s) × (s.authenticated ≡ true)
unfolding known_identity
known-authenticated clock i p none h = cc
known-authenticated clock i p (some s) h = (s, refl, h)

known-mandate_valid :
    (clock i r : String) (o : Option MandateStatus)
    → (known_mandate clock i r o).mandate_valid ≡ true
    → (s : MandateStatus) × (o ≡ some s) × (s.mandate_valid ≡ true)
unfolding known_mandate
known-mandate_valid clock i r none h = cc
known-mandate_valid clock i r (some s) h = (s, refl, h)

-- With the synthetic resolver a proposal gets a binding only from the context that is registered
-- under the reference of the proposal and from the grant in it, and only if the acting identity of
-- that context, which is the actor of the proposal, is registered as authenticated and the issuer of
-- that grant, in its role, as validly mandated.
pub resolve-registered :
    (p : Platform) (cfg : Config) (d : Registry) (clock : String) (now : ℕ) (q : RuntimeProposal)
    (rs : List String) (b : AuthorizationBinding)
    → resolve p cfg (synthetic d clock) now q ≡ ok (rs, some b)
    → (c : AuthorityContext) × (g : Grant) × (i : IdentityStatus) × (m : MandateStatus) × (get
          (text_or_empty q.authority_context_ref)
          d.contexts
        ≡ some c)
      × (c.grant ≡ some g)
      × (b.grant_id ≡ g.grant_id)
      × (c.acting_identity ≡ q.actor)
      × (get q.actor d.identities ≡ some i)
      × (i.authenticated ≡ true)
      × (get (fstring (g.issuer ∷ "|" ∷ g.issuer_role ∷ [])) d.mandates ≡ some m)
      × (m.mandate_valid ≡ true)
unfolding synthetic
resolve-registered p cfg d clock now q rs b h =
    let v = (resolve-IsAuthorized p cfg (synthetic d clock) now q rs b h).1 in
    let c = v.context in
    let g = v.grant in
    let (i, registered, authenticated) =
      known-authenticated clock c.acting_identity c.principal (get c.acting_identity d.identities)
        v.identity.authenticated in
    let (m, mandated, valid) =
      known-mandate_valid clock g.issuer g.issuer_role
        (get (mandate_key g.issuer g.issuer_role) d.mandates) v.mandate.mandate_valid in
    (
      c,
      g,
      i,
      m,
      v.context_found,
      v.grant_found,
      v.same_grant.0,
      v.agrees.actor,
      ap (λ k. get k d.identities) (sym v.agrees.actor) ∙ registered,
      authenticated,
      mandated,
      valid,
    )
