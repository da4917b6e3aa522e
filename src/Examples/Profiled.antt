-- ===== src/Examples/Profiled.antt =====
-- The theorems of the decision-input profile, run on a record with one required obligation.
use cognous_agent_control_pl.Base.{String, true, false, List, [], ◌∷◌, ◌≡◌, ◌↔◌, fstring}
use cognous_agent_control_pl.InputProfile.Json.{Json, Elements, Members}
use cognous_agent_control_pl.InputProfile.Verdict.{Encoded, Codec}
use cognous_agent_control_pl.InputProfile.Obligations.{Obligation}
use cognous_agent_control_pl.InputProfile.Evidence.{
  DeclaredState, EvidenceItem, EvidenceStanding, candidates, evidence_status,
}
use cognous_agent_control_pl.InputProfile.Evidence.Satisfied.{IsSatisfied, evidence_status_iff}
use cognous_agent_control_pl.InputProfile.Verify.{VerifiedFacts, reason_precedence}
use cognous_agent_control_pl.Examples.Clock.{read}

-- A value is encoded by what tells the values of the record apart.
abbrev kind : Json → String
kind (Json.text s) = s
kind (Json.object (Members.member k v m)) = k
kind _ = "value"

abbrev kinds : Codec
kinds = record { dumps = λ v. Encoded.encoded (kind v); sha256 = λ s. s; fromisoformat = read }

abbrev members : List (String × Json) → Members
members [] = Members.end
members ((k, v) ∷ rest) = Members.member k v (members rest)

abbrev texts : List String → Elements
texts [] = Elements.nil
texts (s ∷ ss) = Elements.cons (Json.text s) (texts ss)

abbrev one : List (String × Json) → Json
one fields = Json.array (Elements.cons (Json.object (members fields)) Elements.nil)

abbrev semantics : Json
semantics = Json.object (
    members (
      ("classifier", Json.text "exact-source-current-with-max-age")
      ∷ ("version", Json.text "1")
      ∷ ("admissible_source", Json.text "exact-match")
      ∷ ("future_observation", Json.text "reject")
      ∷ (
        "precedence",
        Json.array (texts ("CONFLICT" ∷ "UNKNOWN" ∷ "STALE" ∷ "MISSING" ∷ "VALID" ∷ [])),
      )
      ∷ []))

abbrev obligation : List (String × Json)
obligation =
    ("obligation_id", Json.text "kyc")
    ∷ ("policy_origin_ref", Json.text "policy-1")
    ∷ ("policy_origin_version", Json.text "v2")
    ∷ ("required", Json.boolean true)
    ∷ ("source_ref", Json.text "register")
    ∷ ("max_age_seconds", Json.integer 60)
    ∷ ("resolution_semantics_id", Json.text "urn:cognous:resolver:required-evidence-v1")
    ∷ ("resolution_semantics_commitment", Json.text "sha256:classifier")
    ∷ ("obligation_commitment", Json.text "sha256:obligation_id")
    ∷ []

abbrev item : List (String × Json)
item =
    ("content", Json.text "kyc passed")
    ∷ ("content_commitment", Json.text "sha256:kyc passed")
    ∷ ("provenance", Json.object (members (("source_ref", Json.text "register") ∷ [])))
    ∷ ("provenance_commitment", Json.text "sha256:source_ref")
    ∷ ("assurance_class", Json.text "trusted_declaration")
    ∷ ("evidence_id", Json.text "evidence-1")
    ∷ ("obligation_ids", Json.array (texts ("kyc" ∷ [])))
    ∷ ("source_ref", Json.text "register")
    ∷ ("observed_at", Json.text "Txxx")
    ∷ ("declared_state", Json.text "current")
    ∷ []

abbrev materialized : String → Json
materialized s = Json.object (
    members (
      ("materialized", Json.text s)
      ∷ ("commitment", Json.text (fstring ("sha256:" ∷ s ∷ [])))
      ∷ []))

abbrev kyc_record : Json
kyc_record = Json.object (
    members (
      ("profile_version", Json.text "0.1.0-proposed")
      ∷ ("authorizing", Json.boolean false)
      ∷ (
        "canonicalization_profile",
        Json.text "json-sort-keys-compact-utf8-no-nan-python-semantics-v0.1-proposed",
      )
      ∷ ("commitment_algorithm", Json.text "SHA-256")
      ∷ ("candidate", materialized "refund")
      ∷ ("assurance", Json.object (members (("policies", Json.text "trusted_declaration") ∷ [])))
      ∷ (
        "policies",
        one (
            ("ref", Json.text "policy-1")
            ∷ ("version", Json.text "v2")
            ∷ ("content", Json.text "rules")
            ∷ ("content_commitment", Json.text "sha256:rules")
            ∷ ("evaluation_semantics", Json.text "strict")
            ∷ ("evaluation_semantics_commitment", Json.text "sha256:strict")
            ∷ []),
      )
      ∷ ("evaluation_time", Json.text "Txxxx")
      ∷ (
        "resolver_semantics",
        Json.object (
            members (
              ("classification_semantics", semantics)
              ∷ ("classification_semantics_commitment", Json.text "sha256:classifier")
              ∷ [])),
      )
      ∷ ("evidence_obligations", one obligation)
      ∷ (
        "institutional_requirements",
        one (
            ("content", Json.text "law")
            ∷ ("commitment", Json.text "sha256:law")
            ∷ ("non_overridable", Json.boolean true)
            ∷ ("policy_origin_ref", Json.text "policy-1")
            ∷ (
              "obligation_commitments",
              Json.object (members (("kyc", Json.text "sha256:obligation_id") ∷ [])),
            )
            ∷ []),
      )
      ∷ ("evidence_items", one item)
      ∷ ("context", materialized "branch")
      ∷ (
        "decision",
        Json.object (
            members (
              ("input_commitment", Json.text "sha256:profile_version")
              ∷ ("reason_precedence", Json.array (texts reason_precedence))
              ∷ ("result", Json.text "hold")
              ∷ ("primary_reason", Json.text "EVIDENCE_UNSATISFIED")
              ∷ [])),
      )
      ∷ ("record_commitment", Json.text "sha256:profile_version")
      ∷ []))

abbrev kyc_facts : VerifiedFacts
kyc_facts = record {
  record_commitment = "sha256:profile_version";
  evidence_statuses = ("kyc", EvidenceStanding.valid) ∷ [];
}

abbrev kyc_item : EvidenceItem
kyc_item = record {
  evidence_id = "evidence-1";
  obligation_ids = "kyc" ∷ [];
  source_ref = "register";
  observed_at = 3;
  declared_state = DeclaredState.current;
  content_commitment = "sha256:kyc passed";
}

abbrev kyc_obligation : Obligation
kyc_obligation = record {
  obligation_id = "kyc";
  policy_origin_ref = "policy-1";
  policy_origin_version = "v2";
  required = true;
  source_ref = "register";
  max_age_seconds = 60;
  resolution_semantics_id = "urn:cognous:resolver:required-evidence-v1";
  resolution_semantics_commitment = "sha256:classifier";
  source = members obligation;
}

evidence_status_iff_example :
    (evidence_status 4 (kyc_item ∷ []) kyc_obligation ≡ EvidenceStanding.valid)
    ↔ IsSatisfied 4 60 (candidates "kyc" (kyc_item ∷ []))
evidence_status_iff_example = evidence_status_iff 4 (kyc_item ∷ []) kyc_obligation
