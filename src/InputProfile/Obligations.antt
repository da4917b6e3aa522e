-- ===== src/InputProfile/Obligations.antt =====
-- src/agent_control_plane/decision_input_profile.py: policies, resolver semantics, evidence
-- obligations and institutional requirements.
pub mod Declared
pub mod Bound
use cognous_agent_control_pl.Base.{
  ℕ, String, Bool, true, false, Option, none, some, List, [], ◌∷◌, ◌||◌, ◌&&◌, not, any, ◌==◌,
  fstring, starts_with, is_none, if◌then◌else◌,
}
use cognous_agent_control_pl.InputProfile.Json.{
  Json, Elements, Members, pairs_of, lookup, or_null, is_text,
}
use cognous_agent_control_pl.InputProfile.Verdict.{
  Refusal, Verdict, accept, reject, ◌>>=◌, ◌>>◌, ensure, invalid, require_dict, require_dicts,
  require_nonempty_string, Codec, commitment, require_sha256, verify_named_commitment,
}

abbrev pub supported_resolution : String
supported_resolution = "urn:cognous:resolver:required-evidence-v1"

-- An obligation that was validated, with the object it was read from.
pub record Obligation : Type 0 where
  pub obligation_id : String
  pub policy_origin_ref : String
  pub policy_origin_version : String
  pub required : Bool
  pub source_ref : String
  pub max_age_seconds : ℕ
  pub resolution_semantics_id : String
  pub resolution_semantics_commitment : String
  pub source : Members

abbrev pub PolicyKey : Type 0
PolicyKey = String × String

abbrev pub knows_policy : PolicyKey → List PolicyKey → Bool
knows_policy (ref, version) = any (λ k. k.0 == ref && k.1 == version)

-- `by_obligation.get(oid)`
unfoldable pub obligation_named : String → List Obligation → Option Obligation
obligation_named oid [] = none
obligation_named oid (o ∷ os) = if o.obligation_id == oid then some o else obligation_named oid os

abbrev required_flag : Option Json → String → Verdict Bool
required_flag (some (Json.boolean b)) oid = accept b
required_flag _ oid = reject (
    Refusal.profile_error "OBLIGATION_REQUIRED_INVALID"
      (fstring ("obligation " ∷ oid ∷ ".required must be boolean" ∷ [])))

abbrev age_limit : Option Json → String → Verdict ℕ
age_limit (some (Json.integer n)) oid = accept n
age_limit _ oid = reject (
    Refusal.profile_error "EVIDENCE_FRESHNESS_INVALID"
      (fstring ("obligation " ∷ oid ∷ ".max_age_seconds must be a non-negative integer" ∷ [])))

abbrev field_of : String → String → String
field_of oid name = fstring ("obligation " ∷ oid ∷ "." ∷ name ∷ [])

-- `SUPPORTED_CLASSIFICATION_SEMANTICS`: the pairs of a string and a string, and the precedence.
abbrev pub classifier_texts : List (String × String)
classifier_texts =
    ("classifier", "exact-source-current-with-max-age")
    ∷ ("version", "1")
    ∷ ("admissible_source", "exact-match")
    ∷ ("future_observation", "reject")
    ∷ []

abbrev pub are_texts : List String → Elements → Bool
are_texts [] Elements.nil = true
are_texts (s ∷ ss) (Elements.cons x xs) = is_text s (some x) && are_texts ss xs
are_texts _ _ = false

abbrev pub is_text_list : List String → Option Json → Bool
is_text_list ss (some (Json.array xs)) = are_texts ss xs
is_text_list ss _ = false

abbrev pub agrees : Members → List (String × String) → Bool
agrees m [] = true
agrees m ((k, s) ∷ rest) = is_text s (lookup k m) && agrees m rest

abbrev pub counts_five : List (String × Json) → Bool
counts_five (a ∷ b ∷ c ∷ d ∷ e ∷ []) = true
counts_five _ = false

-- Equality of a value with SUPPORTED_CLASSIFICATION_SEMANTICS: an object of these five keys and no
-- other, in any order.
unfoldable pub is_supported_semantics : Option Json → Bool
unfolding lookup is_text pairs_of
is_supported_semantics (some (Json.object m)) =
    agrees m classifier_texts
    && is_text_list ("CONFLICT" ∷ "UNKNOWN" ∷ "STALE" ∷ "MISSING" ∷ "VALID" ∷ [])
        (lookup "precedence" m)
    && counts_five (pairs_of m)
is_supported_semantics _ = false

-- `_obligation_semantic_payload`
unfoldable pub obligation_payload : Members → Json
unfolding lookup
obligation_payload m =
    let entry : String → Members → Members =
      λ k rest. Members.member k (or_null (lookup k m)) rest in
    Json.object (
      entry "obligation_id" (
        entry "policy_origin_ref" (
          entry "policy_origin_version" (
            entry "required" (
              entry "source_ref" (
                entry "max_age_seconds" (
                  entry "resolution_semantics_id"
                    (entry "resolution_semantics_commitment" Members.end))))))))

module _ (codec : Codec) where
  -- One step of the loop over the policies, with the keys of `by_policy`.
  unfoldable pub verify_policies : List PolicyKey → List Members → Verdict (List PolicyKey)
  unfolding require_nonempty_string ensure verify_named_commitment lookup
  verify_policies known [] = accept known
  verify_policies known (m ∷ ms) = do
    ref ← require_nonempty_string (lookup "ref" m) "policies[].ref"
    version ← require_nonempty_string (lookup "version" m) "policies[].version"
    ensure (not (knows_policy (ref, version) known)) "INPUT_INVALID" "duplicate policy ref/version"
    verify_named_commitment codec m "content" "content_commitment"
        "POLICY_CONTENT_COMMITMENT_MISMATCH"
    verify_named_commitment codec m "evaluation_semantics" "evaluation_semantics_commitment"
        "POLICY_SEMANTICS_COMMITMENT_MISMATCH"
    verify_policies ((ref, version) ∷ known) ms

  -- `_validate_resolver_semantics`
  unfoldable pub validate_resolver_semantics : Members → Verdict String
  unfolding ensure verify_named_commitment is_supported_semantics lookup
  validate_resolver_semantics m = do
    declared ←
        verify_named_commitment codec m "classification_semantics"
          "classification_semantics_commitment" "RESOLVER_SEMANTICS_COMMITMENT_MISMATCH"
    ensure (is_supported_semantics (lookup "classification_semantics" m))
        "UNSUPPORTED_RESOLVER_SEMANTICS"
        "declared classification semantics are not implemented by this proposed verifier"
    accept declared

  -- `_validate_obligation_fields`, with the fields that it has validated
  unfoldable pub validate_obligation_fields : Members → Verdict Obligation
  unfolding require_nonempty_string require_sha256 lookup
  validate_obligation_fields m = do
    oid ← require_nonempty_string (lookup "obligation_id" m) "evidence_obligations[].obligation_id"
    origin ←
        require_nonempty_string (lookup "policy_origin_ref" m) (field_of oid "policy_origin_ref")
    version ←
        require_nonempty_string (lookup "policy_origin_version" m)
          (field_of oid "policy_origin_version")
    required ← required_flag (lookup "required" m) oid
    source ← require_nonempty_string (lookup "source_ref" m) (field_of oid "source_ref")
    max_age ← age_limit (lookup "max_age_seconds" m) oid
    semantics ←
        require_nonempty_string (lookup "resolution_semantics_id" m)
          (field_of oid "resolution_semantics_id")
    semantics_commitment ←
        require_sha256 codec (lookup "resolution_semantics_commitment" m)
          (fstring ("obligation " ∷ oid ∷ ".resolution_semantics_commitment must be sha256" ∷ []))
    accept (record {
      obligation_id = oid;
      policy_origin_ref = origin;
      policy_origin_version = version;
      required = required;
      source_ref = source;
      max_age_seconds = max_age;
      resolution_semantics_id = semantics;
      resolution_semantics_commitment = semantics_commitment;
      source = m;
    })

  module _ (policies : List PolicyKey) (semantics : String) where
    -- The loop over the obligations, with those seen before it.
    unfoldable pub verify_obligations : List Obligation → List Members → Verdict (List Obligation)
    unfolding ensure validate_obligation_fields commitment lookup obligation_named
        obligation_payload is_text
    verify_obligations seen [] = accept []
    verify_obligations seen (m ∷ ms) = do
      o ← validate_obligation_fields m
      let oid = o.obligation_id
      ensure (is_none (obligation_named oid seen)) "INPUT_INVALID" "duplicate obligation_id"
      ensure (knows_policy (o.policy_origin_ref, o.policy_origin_version) policies)
          "POLICY_BINDING_FAILED"
          (fstring ("obligation " ∷ oid ∷ " has unknown policy origin" ∷ []))
      actual ← commitment codec (obligation_payload m)
      ensure (is_text actual (lookup "obligation_commitment" m)) "OBLIGATION_COMMITMENT_MISMATCH"
          (fstring ("obligation " ∷ oid ∷ " commitment mismatch" ∷ []))
      ensure
          (o.resolution_semantics_id == supported_resolution
            && o.resolution_semantics_commitment == semantics)
          "OBLIGATION_RESOLVER_SEMANTICS_MISMATCH"
          (fstring
            ("obligation " ∷ oid ∷ " does not bind the supported declared resolver semantics" ∷ []))
      rest ← verify_obligations (o ∷ seen) ms
      accept (o ∷ rest)

-- `a.get(key) != b.get(key)` of the obligation `a`, where its value is a string.
abbrev same_value : Option Json → Option Json → Bool
same_value (some (Json.text s)) o = is_text s o
same_value _ o = false

abbrev reinterpreted : String → String → Refusal
reinterpreted oid what =
    Refusal.profile_error "INSTITUTIONAL_OBLIGATION_REINTERPRETED"
      (fstring ("institutional obligation " ∷ oid ∷ what ∷ []))

abbrev check_named : Members → String → Json → Option Obligation → Verdict Unit
check_named requirement oid expected none = reject (
    Refusal.profile_error "INSTITUTIONAL_OBLIGATION_REMOVED"
      (fstring ("institutional obligation " ∷ oid ∷ " missing" ∷ [])))
check_named requirement oid expected (some o) =
    if not (same_value (lookup "obligation_commitment" o.source) (some expected))
    then reject (reinterpreted oid " changed")
    else if not (is_text o.policy_origin_ref (lookup "policy_origin_ref" requirement))
    then reject (reinterpreted oid " origin changed")
    else accept tt

module _ (codec : Codec) (known : List Obligation) where
  -- The loop over `expected_obligations.items()`.
  unfoldable pub check_obligations : Members → List (String × Json) → Verdict Unit
  unfolding obligation_named lookup is_text
  check_obligations requirement [] = accept tt
  check_obligations requirement ((oid, expected) ∷ rest) = do
    check_named requirement oid expected (obligation_named oid known)
    check_obligations requirement rest

  abbrev is_true : Option Json → Bool
  is_true (some (Json.boolean b)) = b
  is_true _ = false

  unfoldable pub verify_requirements : List Members → Verdict Unit
  unfolding ensure verify_named_commitment require_dict check_obligations pairs_of lookup
  verify_requirements [] = accept tt
  verify_requirements (m ∷ ms) = do
    verify_named_commitment codec m "content" "commitment"
        "INSTITUTIONAL_REQUIREMENT_COMMITMENT_MISMATCH"
    ensure (is_true (lookup "non_overridable" m)) "INSTITUTIONAL_REQUIREMENT_FAILED"
        "institutional requirement must be non-overridable"
    expected ←
        require_dict (lookup "obligation_commitments" m)
          "institutional_requirements[].obligation_commitments"
    check_obligations m (pairs_of expected)
    verify_requirements ms
