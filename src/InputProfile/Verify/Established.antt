-- ===== src/InputProfile/Verify/Established.antt =====
-- What a verified record establishes.
use cognous_agent_control_pl.Base.{ℕ, String, true, false, some, List, ◌≡◌, All, map}
use cognous_agent_control_pl.InputProfile.Json.{Json, Members, lookup, without, or_null, array_of}
use cognous_agent_control_pl.InputProfile.Verdict.{
  accept, require_dicts, Codec, commitment, parse_time,
}
use cognous_agent_control_pl.InputProfile.Verdict.Accepted.{HasCommitment, IsNamed}
use cognous_agent_control_pl.InputProfile.Obligations.{Obligation}
use cognous_agent_control_pl.InputProfile.Obligations.Declared.{IsResolver}
use cognous_agent_control_pl.InputProfile.Obligations.Bound.{IsBound}
use cognous_agent_control_pl.InputProfile.Evidence.{
  EvidenceItem, EvidenceStanding, candidates, evidence_status,
}
use cognous_agent_control_pl.InputProfile.Evidence.Satisfied.{IsSatisfied}
use cognous_agent_control_pl.InputProfile.Evidence.Admissible.{IsAdmissible}
use cognous_agent_control_pl.InputProfile.Verify.{ClosedInputs, VerifiedFacts}

-- A required obligation is satisfied at the time of the record by its evidence.
abbrev pub Settles : ℕ → List EvidenceItem → Obligation → Type 0
Settles now evidence o =
    o.required ≡ true → IsSatisfied now o.max_age_seconds (candidates o.obligation_id evidence)

-- The closed inputs, which a decision commits to: the twelve parts, the verified ones as they are.
abbrev pub closed_inputs : Members → ClosedInputs → Json
closed_inputs m i =
    let entry : String → Json → Members → Members = λ k v rest. Members.member k v rest in
    let said : String → Json = λ k. or_null (lookup k m) in
    let listed : List Members → Json = λ ms. Json.array (array_of ms) in
    Json.object (
      entry "profile_version" (said "profile_version") (
        entry "canonicalization_profile" (said "canonicalization_profile") (
          entry "commitment_algorithm" (said "commitment_algorithm") (
            entry "candidate" (Json.object i.candidate) (
              entry "institutional_requirements" (listed i.requirements) (
                entry "policies" (listed i.policies) (
                  entry "evidence_obligations" (listed i.obligation_objects) (
                    entry "evidence_items" (listed i.evidence_objects) (
                      entry "context" (Json.object i.context) (
                        entry "evaluation_time" (said "evaluation_time") (
                          entry "resolver_semantics" (Json.object i.resolver)
                            (entry "assurance" (Json.object i.assurance) Members.end))))))))))))

-- What the parts of a record establish.
pub record AreClosed (codec : Codec) (m : Members) (i : ClosedInputs) : Type 0 where
  pub time :
      parse_time codec (lookup "evaluation_time" m) "EVALUATION_TIME_INVALID"
      ≡ accept i.evaluation_time
  pub candidate : lookup "candidate" m ≡ some (Json.object i.candidate)
  pub materialized : String
  pub candidate_named : IsNamed codec i.candidate "materialized" "commitment" materialized
  pub assurance : lookup "assurance" m ≡ some (Json.object i.assurance)
  pub requirements :
      require_dicts (lookup "institutional_requirements" m) "institutional_requirements"
      ≡ accept i.requirements
  pub evidence_objects :
      require_dicts (lookup "evidence_items" m) "evidence_items" ≡ accept i.evidence_objects
  pub context : lookup "context" m ≡ some (Json.object i.context)
  pub context_materialized : String
  pub context_named : IsNamed codec i.context "materialized" "commitment" context_materialized
  pub obligation_objects :
      require_dicts (lookup "evidence_obligations" m) "evidence_obligations"
      ≡ accept i.obligation_objects
  pub of_objects : map (λ o. o.source) i.obligations ≡ i.obligation_objects
  pub policy_objects : require_dicts (lookup "policies" m) "policies" ≡ accept i.policies
  pub resolver_there : lookup "resolver_semantics" m ≡ some (Json.object i.resolver)
  pub semantics : String
  pub resolver : IsResolver codec i.resolver semantics
  pub bound : All (IsBound codec i.policies semantics) i.obligations
  pub admissible : All (IsAdmissible codec i.obligations i.evaluation_time) i.evidence

-- What the verification of a record establishes.
pub record IsVerified (codec : Codec) (value : Json) (facts : VerifiedFacts) : Type 0 where
  pub m : Members
  pub is_object : value ≡ Json.object m
  pub not_authorizing : lookup "authorizing" m ≡ some (Json.boolean false)
  pub inputs : ClosedInputs
  pub closed : AreClosed codec m inputs
  pub settled : All (Settles inputs.evaluation_time inputs.evidence) inputs.obligations
  pub statuses :
      facts.evidence_statuses
      ≡ map
          (λ o. (o.obligation_id, evidence_status inputs.evaluation_time inputs.evidence o))
          inputs.obligations
  pub decision : Members
  pub decided : lookup "decision" m ≡ some (Json.object decision)
  pub over_inputs :
      HasCommitment codec (closed_inputs m inputs) (lookup "input_commitment" decision)
  pub committed :
      commitment codec (Json.object (without "record_commitment" m))
      ≡ accept facts.record_commitment
  pub whole :
      HasCommitment codec
        (Json.object (without "record_commitment" m))
        (lookup "record_commitment" m)

module _ (now : ℕ) (evidence : List EvidenceItem) where
  abbrev status_of : Obligation → String × EvidenceStanding
  status_of o = (o.obligation_id, evidence_status now evidence o)
