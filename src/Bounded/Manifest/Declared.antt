-- ===== src/Bounded/Manifest/Declared.antt =====
-- `_manifest_mismatches` finds nothing exactly when the proposal is what the manifest declares.
use cognous_agent_control_pl.Base.{
  ℕ, ◌≤◌, ◌<◌, String, Bool, true, false, Option, none, some, List, ◌≡◌, ◌≢◌, ◌⊎◌, inl, inr, refl,
  ap, arith, not, ◌&&◌, eq_iff, opt_eq_iff, mem, any-mem, subset-mem, keys, All, All-append,
}
use cognous_agent_control_pl.Base.Outcome.{ok, Passes, Result-cases}
use cognous_agent_control_pl.Bounded.Models.{RuntimeProposal}
use cognous_agent_control_pl.Bounded.Documents.{
  Platform, Committed, Manifest, ManifestAction, Tool, TargetPolicy, PayloadPolicy, EffectLimits,
  DeclaredAuthority, parse,
}
use cognous_agent_control_pl.Bounded.Manifest.{
  find_tool, adapter_differs, target_outside, payload_checks, limit_checks, or_zero, needed_scopes,
  profile_checks, starts_after, ended_by, document_checks, action_checks, manifest_version_1_1,
}

-- The payload has the required fields, none that is forbidden, and none that is not declared.
abbrev pub PayloadFits : Option PayloadPolicy → List String → Type 0
PayloadFits none ks = ⊥
PayloadFits (some q) ks =
    ((k : String) → mem k q.required_fields ≡ true → mem k ks ≡ true)
    × ((k : String) → mem k ks ≡ true → mem k q.forbidden_fields ≡ false)
    × ((k : String)
        → mem k ks ≡ true
        → (mem k q.required_fields ≡ true) ⊎ (mem k q.optional_fields ≡ true))

abbrev pub LimitsHold : Option EffectLimits → RuntimeProposal → Type 0
LimitsHold none q = Unit
LimitsHold (some l) q =
    (q.effects ≤ or_zero l.max_effects)
    × ((n : ℕ) → l.max_amount ≡ some n → q.amount ≤ n)
    × ((u : String) → l.unit ≡ some u → q.unit ≡ u)

abbrev pub ProfileMatches : Option DeclaredAuthority → RuntimeProposal → Type 0
ProfileMatches none q = Unit
ProfileMatches (some a) q =
    (q.authority_context_ref ≡ a.profile_ref) × (q.requirement_id ≡ a.requirement_id)

-- A bound that is given, and is not the empty text, reads as a time that has come.
abbrev pub HasStarted : Platform → Option String → ℕ → Type 0
HasStarted p value now =
    (v : String) → value ≡ some v → v ≢ "" → (t : ℕ) × (parse p v ≡ ok t) × (t ≤ now)

abbrev pub HasNotEnded : Platform → Option String → ℕ → Type 0
HasNotEnded p value now =
    (v : String) → value ≡ some v → v ≢ "" → (t : ℕ) × (parse p v ≡ ok t) × (now < t)

-- Everything that the manifest and its action say of the proposal.
pub record IsDeclared (p : Platform) (m : Manifest) (q : RuntimeProposal) (now : ℕ)
    (a : ManifestAction) : Type 0 where
  pub proposal_version : q.manifest_version ≡ manifest_version_1_1
  pub manifest_version : m.manifest_version ≡ some manifest_version_1_1
  pub manifest_id : some q.manifest_id ≡ m.manifest_id
  pub manifest_digest : q.manifest_digest ≡ p.commitment (Committed.manifest m)
  pub payload_commitment : q.payload_commitment ≡ p.commitment (Committed.payload q.payload)
  pub adapter : (t : Tool) × (find_tool m a.tool_name ≡ some t) × (t.adapter_id ≡ some q.adapter_id)
  pub target :
      (t : TargetPolicy) × (a.target_policy ≡ some t)
      × (t.allow_any_target ≡ false)
      × (mem q.target t.allowed_targets ≡ true)
  pub payload : PayloadFits a.payload_policy (keys q.payload)
  pub limits : LimitsHold a.effect_limits q
  pub scopes :
      (s : String)
      → mem s (needed_scopes a.authority_required) ≡ true
      → mem s q.requested_permissions ≡ true
  pub profile : ProfileMatches a.authority_context q
  pub started : HasStarted p q.not_before now
  pub not_ended : HasNotEnded p q.expires_at now

not-false : (b : Bool) → ok (not b) ≡ ok false → b ≡ true
not-false true h = refl
not-false false h = cc

false_of_ok : (b : Bool) → ok b ≡ ok false → b ≡ false
false_of_ok b h = cc

adapter_fits :
    (t : Option Tool) (adapter_id : String)
    → adapter_differs t adapter_id ≡ false
    → (u : Tool) × (t ≡ some u) × (u.adapter_id ≡ some adapter_id)
unfolding adapter_differs
adapter_fits none adapter_id h = cc
adapter_fits (some u) adapter_id h =
    (u, refl, (opt_eq_iff u.adapter_id (some adapter_id)).0 (not-false _ (ap ok h)))

target_fits :
    (t : Option TargetPolicy) (target : String)
    → target_outside t target ≡ false
    → (u : TargetPolicy) × (t ≡ some u)
      × (u.allow_any_target ≡ false)
      × (mem target u.allowed_targets ≡ true)
unfolding target_outside
target_fits none target h = cc
target_fits (some u) target h = (u, refl, ground arith, ground arith)

declared_or : (a b : Bool) → (not a && not b) ≡ false → (a ≡ true) ⊎ (b ≡ true)
declared_or a b h = ground arith

payload_fits :
    (o : Option PayloadPolicy) (ks : List String)
    → All Passes (payload_checks o ks)
    → PayloadFits o ks
unfolding payload_checks
payload_fits none ks h = absurd (ground arith)
payload_fits (some q) ks (required, (forbidden, (undeclared, _))) = (
  subset-mem q.required_fields ks (not-false _ required),
  any-mem _ ks (false_of_ok _ forbidden),
  λ k m. declared_or _ _ (any-mem _ ks (false_of_ok _ undeclared) k m),
)

limits_hold :
    (o : Option EffectLimits) (q : RuntimeProposal) → All Passes (limit_checks o q) → LimitsHold o q
unfolding limit_checks
limits_hold none q h = tt
limits_hold (some l) q h =
    (ground arith, λ n e. ground (arith, e), λ u e. ground (arith, eq_iff q.unit u))

profile_matches :
    (o : Option DeclaredAuthority) (q : RuntimeProposal)
    → All Passes (profile_checks o q)
    → ProfileMatches o q
unfolding profile_checks
profile_matches none q h = tt
profile_matches (some a) q (profile, (requirement, _)) = (
  (opt_eq_iff q.authority_context_ref a.profile_ref).0 (not-false _ profile),
  (opt_eq_iff q.requirement_id a.requirement_id).0 (not-false _ requirement),
)

module _ (p : Platform) (now : ℕ) where
  started_lem : (o : Option String) → starts_after p o now ≡ ok false → HasStarted p o now
  unfolding starts_after
  started_lem o h = λ v e given. elim (Result-cases (parse p v)) [
    | inl (t, r) ↦ (t, r, ground (arith, eq_iff v ""))
    | inr (x, r) ↦ absurd (ground (arith, eq_iff v ""))
  ]

  not_ended_lem : (o : Option String) → ended_by p o now ≡ ok false → HasNotEnded p o now
  unfolding ended_by
  not_ended_lem o h = λ v e given. elim (Result-cases (parse p v)) [
    | inl (t, r) ↦ (t, r, ground (arith, eq_iff v ""))
    | inr (x, r) ↦ absurd (ground (arith, eq_iff v ""))
  ]

  pub IsDeclared-of_Passes :
      (m : Manifest) (q : RuntimeProposal) (a : ManifestAction)
      → All Passes (document_checks p m q)
      → All Passes (action_checks p m a q now)
      → IsDeclared p m q now a
  unfolding document_checks action_checks
  IsDeclared-of_Passes m q a (v, (w, (i, (d, (c, _))))) (adapter, (target, rest)) =
      let (payload, rest₁) =
        All-append Passes (payload_checks a.payload_policy (keys q.payload)) _ rest in
      let (limits, (scopes, rest₂)) = All-append Passes (limit_checks a.effect_limits q) _ rest₁ in
      let (profile, (started, (ended, _))) =
        All-append Passes (profile_checks a.authority_context q) _ rest₂ in
      record {
        proposal_version = (eq_iff _ _).0 (not-false _ v);
        manifest_version = (opt_eq_iff _ _).0 (not-false _ w);
        manifest_id = (opt_eq_iff _ _).0 (not-false _ i);
        manifest_digest = (eq_iff _ _).0 (not-false _ d);
        payload_commitment = (eq_iff _ _).0 (not-false _ c);
        adapter = adapter_fits _ _ (false_of_ok _ adapter);
        target = target_fits _ _ (false_of_ok _ target);
        payload = payload_fits _ _ payload;
        limits = limits_hold _ q limits;
        scopes = subset-mem _ _ (not-false _ scopes);
        profile = profile_matches _ q profile;
        started = started_lem _ started;
        not_ended = not_ended_lem _ ended;
      }
