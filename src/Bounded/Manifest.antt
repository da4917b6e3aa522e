-- ===== src/Bounded/Manifest.antt =====
-- src/agent_control_plane/bounded.py: `_manifest_mismatches` and `_matching_permission`, what a
-- proposal must agree with before any authority is asked for.
pub mod Declared
pub mod Complete
pub mod Scope
use cognous_agent_control_pl.Base.{
  ℕ, String, Bool, true, false, Option, none, some, List, [], ◌∷◌, ◌++◌, ◌&&◌, ◌||◌, not, ltb, leb,
  ◌==◌, opt_eq, mem, subset, any, keep, map, find_first, keys, if◌then◌else◌, sorted_set, is_none,
  Dict,
}
use cognous_agent_control_pl.Base.Outcome.{Result, ok, raise, bind, Check, failing}
use cognous_agent_control_pl.Bounded.Models.{RuntimeProposal}
use cognous_agent_control_pl.Bounded.Documents.{
  Platform, Committed, Manifest, ManifestAction, Tool, TargetPolicy, PayloadPolicy, EffectLimits,
  RequiredScope, DeclaredAuthority, Permission, parse,
}

abbrev pub manifest_version_1_1 : String
manifest_version_1_1 = "1.1"

-- `next((x for x in actions if x.get("action_id") == action_id), None)`
unfoldable pub find_action : Manifest → String → Option ManifestAction
find_action m action_id = find_first (λ x. x.action_id == action_id) m.actions

unfoldable pub find_tool : Manifest → Option String → Option Tool
find_tool m tool_name = find_first (λ x. opt_eq x.tool_name tool_name) m.tools

-- A test that cannot raise.
abbrev pub check : Bool → String → Check
check b r = (ok b, r)

unfoldable pub adapter_differs : Option Tool → String → Bool
adapter_differs none adapter_id = true
adapter_differs (some t) adapter_id = not (opt_eq t.adapter_id (some adapter_id))

unfoldable pub target_outside : Option TargetPolicy → String → Bool
target_outside none target = true
target_outside (some t) target = t.allow_any_target || not (mem target t.allowed_targets)

unfoldable pub payload_checks : Option PayloadPolicy → List String → List Check
payload_checks none ks = check true "missing_payload_policy" ∷ []
payload_checks (some q) ks =
    check (not (subset q.required_fields ks)) "missing_required_payload_field"
    ∷ check (any (λ k. mem k q.forbidden_fields) ks) "forbidden_payload_field"
    ∷ check (any (λ k. not (mem k q.required_fields) && not (mem k q.optional_fields)) ks)
        "undeclared_payload_field"
    ∷ []

abbrev pub or_zero : Option ℕ → ℕ
or_zero none = 0
or_zero (some n) = n

abbrev exceeds : ℕ → Option ℕ → Bool
exceeds n none = false
exceeds n (some limit) = ltb limit n

abbrev differs : String → Option String → Bool
differs s none = false
differs s (some t) = not (s == t)

unfoldable pub limit_checks : Option EffectLimits → RuntimeProposal → List Check
limit_checks none q = []
limit_checks (some l) q =
    check (ltb (or_zero l.max_effects) q.effects) "effect_count_exceeded"
    ∷ check (exceeds q.amount l.max_amount) "amount_exceeded"
    ∷ check (differs q.unit l.unit) "amount_unit_mismatch"
    ∷ []

-- The scopes that the action requires.
unfoldable pub needed_scopes : List RequiredScope → List String
needed_scopes [] = []
needed_scopes (x ∷ xs) = let rest = needed_scopes xs in if x.required then x.scope ∷ rest else rest

unfoldable pub profile_checks : Option DeclaredAuthority → RuntimeProposal → List Check
profile_checks none q = []
profile_checks (some a) q =
    check (not (opt_eq q.authority_context_ref a.profile_ref)) "authority_profile_mismatch"
    ∷ check (not (opt_eq q.requirement_id a.requirement_id)) "authority_requirement_mismatch"
    ∷ []

module _ (p : Platform) where
  -- `value and _parse(value) > now`
  unfoldable pub starts_after : Option String → ℕ → Result Bool
  starts_after none now = ok false
  starts_after (some value) now =
      if value == "" then ok false else bind (parse p value) (λ t. ok (ltb now t))

  -- `value and _parse(value) <= now`
  unfoldable pub ended_by : Option String → ℕ → Result Bool
  ended_by none now = ok false
  ended_by (some value) now =
      if value == "" then ok false else bind (parse p value) (λ t. ok (leb t now))

  unfoldable pub document_checks : Manifest → RuntimeProposal → List Check
  document_checks m q =
      check (not (q.manifest_version == manifest_version_1_1)) "unsupported_manifest_version"
      ∷ check (not (opt_eq m.manifest_version (some manifest_version_1_1)))
          "manifest_version_mismatch"
      ∷ check (not (opt_eq (some q.manifest_id) m.manifest_id)) "manifest_id_mismatch"
      ∷ check (not (q.manifest_digest == p.commitment (Committed.manifest m)))
          "manifest_digest_mismatch"
      ∷ check (not (q.payload_commitment == p.commitment (Committed.payload q.payload)))
          "payload_commitment_mismatch"
      ∷ []

  unfoldable pub action_checks : Manifest → ManifestAction → RuntimeProposal → ℕ → List Check
  unfolding adapter_differs target_outside payload_checks limit_checks profile_checks
  action_checks m a q now =
      check (adapter_differs (find_tool m a.tool_name) q.adapter_id) "adapter_mismatch"
      ∷ check (target_outside a.target_policy q.target) "target_out_of_scope"
      ∷ (payload_checks a.payload_policy (keys q.payload)
          ++ (limit_checks a.effect_limits q
              ++ (check (not (subset (needed_scopes a.authority_required) q.requested_permissions))
                    "missing_requested_permission"
                  ∷ (profile_checks a.authority_context q
                      ++ ((starts_after q.not_before now, "proposal_not_yet_valid")
                          ∷ (ended_by q.expires_at now, "proposal_expired")
                          ∷ [])))))

  unfoldable pub mismatch_checks :
      Manifest → Option ManifestAction → RuntimeProposal → ℕ → List Check
  unfolding document_checks action_checks
  mismatch_checks m none q now = document_checks m q ++ check true "unknown_action" ∷ []
  mismatch_checks m (some a) q now = document_checks m q ++ action_checks m a q now

  -- `_manifest_mismatches`
  unfoldable pub manifest_mismatches : Manifest → RuntimeProposal → ℕ → Result (List String)
  unfolding mismatch_checks
  manifest_mismatches m q now =
      bind (failing (mismatch_checks m (find_action m q.action_id) q now))
        (λ rs. ok (sorted_set rs))

-- The tests of the loop in `_matching_permission`.
unfoldable pub covers : ManifestAction → RuntimeProposal → Permission → Bool
covers a q permission =
    permission.action == a.action_name
    && mem q.target permission.targets
    && subset q.requested_permissions permission.data_scopes
    && leb q.amount permission.max_amount
    && q.unit == permission.unit
    && leb q.effects permission.max_effects

covering : Option ManifestAction → RuntimeProposal → List Permission → Option Permission
unfolding covers
covering none q permissions = none
covering (some a) q permissions = find_first (covers a q) permissions

-- `_matching_permission`
unfoldable pub matching_permission :
    Manifest → List Permission → RuntimeProposal → Option Permission
unfolding covering
matching_permission m permissions q = covering (find_action m q.action_id) q permissions
