-- ===== src/InputProfile/Verify.antt =====
-- src/agent_control_plane/decision_input_profile.py: `verify_record`.
pub mod Established
use cognous_agent_control_pl.Base.{
  ℕ, String, Bool, true, false, Option, none, some, List, [], ◌∷◌, ◌&&◌, not, map, ◌==◌, fstring,
  list_eq, if◌then◌else◌,
}
use cognous_agent_control_pl.InputProfile.Json.{
  Json, Members, list_of, pairs_of, lookup, without, or_null, array_of, is_text,
}
use cognous_agent_control_pl.InputProfile.Verdict.{
  Refusal, Verdict, accept, reject, ◌>>=◌, ◌>>◌, ensure, each, require_dict, require_dicts,
  is_one_of, Codec, commitment, parse_time, verify_named_commitment,
}
use cognous_agent_control_pl.InputProfile.Obligations.{
  Obligation, is_text_list, verify_policies, validate_resolver_semantics, verify_obligations,
  verify_requirements,
}
use cognous_agent_control_pl.InputProfile.Evidence.{
  assurance_classes, EvidenceItem, EvidenceStanding, standing_name, evidence_status,
  verify_evidence_item,
}

abbrev pub reason_precedence : List String
reason_precedence =
    "INPUT_INVALID" ∷ "CANDIDATE_BINDING_FAILED" ∷ "INSTITUTIONAL_REQUIREMENT_FAILED"
    ∷ "POLICY_BINDING_FAILED" ∷ "EVIDENCE_UNSATISFIED" ∷ "CONTEXT_OR_TIME_FAILED"
    ∷ "RESOLVER_SEMANTICS_FAILED" ∷ "DECISION_INCONSISTENT" ∷ []

abbrev canonicalization : String
canonicalization = "json-sort-keys-compact-utf8-no-nan-python-semantics-v0.1-proposed"

-- The parts of a record that are verified before its decision.
pub record ClosedInputs : Type 0 where
  pub candidate : Members
  pub assurance : Members
  pub policies : List Members
  pub evaluation_time : ℕ
  pub resolver : Members
  pub obligation_objects : List Members
  pub obligations : List Obligation
  pub requirements : List Members
  pub evidence_objects : List Members
  pub evidence : List EvidenceItem
  pub context : Members

-- The dictionary that `verify_record` returns, without its constants: it is valid, does not
-- authorize, and no external truth is verified.
pub record VerifiedFacts : Type 0 where
  pub record_commitment : String
  pub evidence_statuses : List (String × EvidenceStanding)

abbrev is_false : Option Json → Bool
is_false (some (Json.boolean b)) = not b
is_false _ = false

abbrev is_string : Option Json → Bool
is_string (some (Json.text s)) = true
is_string _ = false

unfoldable pub verify_header : Members → Verdict Unit
unfolding ensure is_text lookup
verify_header m = do
  ensure (is_text "0.1.0-proposed" (lookup "profile_version" m)) "INPUT_INVALID"
      "unsupported proposed profile version"
  ensure (is_false (lookup "authorizing" m)) "INPUT_INVALID"
      "profile record must be explicitly non-authorizing"
  ensure (is_text canonicalization (lookup "canonicalization_profile" m)) "INPUT_INVALID"
      "canonicalization profile mismatch"
  ensure (is_text "SHA-256" (lookup "commitment_algorithm" m)) "INPUT_INVALID"
      "commitment algorithm mismatch"

-- The loop over `assurance.items()`.
unfoldable pub check_assurance : List (String × Json) → Verdict Unit
unfolding ensure is_one_of
check_assurance [] = accept tt
check_assurance ((name, v) ∷ rest) = do
  classified ← is_one_of assurance_classes (some v)
  ensure classified "INPUT_INVALID" (fstring ("invalid assurance class for " ∷ name ∷ []))
  check_assurance rest

abbrev is_valid : EvidenceStanding → Bool
is_valid EvidenceStanding.valid = true
is_valid _ = false

-- The status of one obligation, which must be valid where the evidence is required.
unfoldable pub check_status : Obligation → EvidenceStanding → Verdict (String × EvidenceStanding)
check_status o s =
    if o.required && not (is_valid s)
    then reject (
        Refusal.profile_error (fstring ("EVIDENCE_" ∷ standing_name s ∷ [])) (
          fstring ("required obligation " ∷ o.obligation_id ∷ " resolved " ∷ standing_name s ∷ [])))
    else accept (o.obligation_id, s)

-- The loop over `by_obligation.items()`.
unfoldable pub check_statuses :
    ℕ → List EvidenceItem → List Obligation → Verdict (List (String × EvidenceStanding))
unfolding each check_status evidence_status
check_statuses now evidence = each (λ o. check_status o (evidence_status now evidence o))

-- `tuple(decision.get("reason_precedence", [])) == REASON_PRECEDENCE`; the tuple of an object is
-- that of its keys, and that of a string has no text longer than a character.
unfoldable pub has_precedence : Option Json → Verdict Bool
unfolding pairs_of
has_precedence none = accept false
has_precedence (some (Json.array xs)) =
    accept (is_text_list reason_precedence (some (Json.array xs)))
has_precedence (some (Json.object m)) =
    accept (list_eq (map (λ (e : String × Json). e.0) (pairs_of m)) reason_precedence)
has_precedence (some (Json.text s)) = accept false
has_precedence (some _) = reject Refusal.type_error

-- `decision_input_payload`
unfoldable pub input_payload : Members → ClosedInputs → Json
unfolding lookup
input_payload m i =
    let entry : String → Json → Members → Members = λ k v rest. Members.member k v rest in
    let copied : String → Members → Members = λ k rest. entry k (or_null (lookup k m)) rest in
    Json.object (
      copied "profile_version" (
        copied "canonicalization_profile" (
          copied "commitment_algorithm" (
            entry "candidate" (Json.object i.candidate) (
              entry "institutional_requirements" (Json.array (array_of i.requirements)) (
                entry "policies" (Json.array (array_of i.policies)) (
                  entry "evidence_obligations" (Json.array (array_of i.obligation_objects)) (
                    entry "evidence_items" (Json.array (array_of i.evidence_objects)) (
                      entry "context" (Json.object i.context) (
                        copied "evaluation_time" (
                          entry "resolver_semantics" (Json.object i.resolver)
                            (entry "assurance" (Json.object i.assurance) Members.end))))))))))))

module _ (codec : Codec) where
  -- From the candidate to the context.
  unfoldable pub verify_inputs : Members → Verdict ClosedInputs
  unfolding require_dict require_dicts verify_named_commitment check_assurance verify_policies
      parse_time validate_resolver_semantics verify_obligations verify_requirements each
      verify_evidence_item lookup pairs_of
  verify_inputs m = do
    candidate ← require_dict (lookup "candidate" m) "candidate"
    verify_named_commitment codec candidate "materialized" "commitment"
        "CANDIDATE_COMMITMENT_MISMATCH"
    assurance ← require_dict (lookup "assurance" m) "assurance"
    check_assurance (pairs_of assurance)
    policies ← require_dicts (lookup "policies" m) "policies"
    by_policy ← verify_policies codec [] policies
    now ← parse_time codec (lookup "evaluation_time" m) "EVALUATION_TIME_INVALID"
    resolver ← require_dict (lookup "resolver_semantics" m) "resolver_semantics"
    semantics ← validate_resolver_semantics codec resolver
    obligation_objects ← require_dicts (lookup "evidence_obligations" m) "evidence_obligations"
    obligations ← verify_obligations codec by_policy semantics [] obligation_objects
    requirements ←
        require_dicts (lookup "institutional_requirements" m) "institutional_requirements"
    verify_requirements codec obligations requirements
    evidence_objects ← require_dicts (lookup "evidence_items" m) "evidence_items"
    evidence ← each (verify_evidence_item codec obligations now) evidence_objects
    context ← require_dict (lookup "context" m) "context"
    verify_named_commitment codec context "materialized" "commitment" "CONTEXT_COMMITMENT_MISMATCH"
    accept (record {
      candidate = candidate;
      assurance = assurance;
      policies = policies;
      evaluation_time = now;
      resolver = resolver;
      obligation_objects = obligation_objects;
      obligations = obligations;
      requirements = requirements;
      evidence_objects = evidence_objects;
      evidence = evidence;
      context = context;
    })

  -- The tests on the decision.
  unfoldable pub verify_decision : Members → ClosedInputs → Verdict Unit
  unfolding ensure require_dict commitment input_payload is_text has_precedence is_one_of lookup
  verify_decision m i = do
    decision ← require_dict (lookup "decision" m) "decision"
    actual ← commitment codec (input_payload m i)
    ensure (is_text actual (lookup "input_commitment" decision))
        "DECISION_INPUT_COMMITMENT_MISMATCH"
        "decision input commitment does not match closed inputs"
    ordered ← has_precedence (lookup "reason_precedence" decision)
    ensure ordered "DECISION_REASON_PRECEDENCE_MISMATCH" "reason precedence differs from profile"
    known ← is_one_of ("authorized" ∷ "hold" ∷ "deny" ∷ []) (lookup "result" decision)
    ensure known "INPUT_INVALID" "unsupported decision result"
    ensure (is_string (lookup "primary_reason" decision)) "INPUT_INVALID" "primary_reason required"

  unfoldable pub verify_record_commitment : Members → Verdict String
  unfolding ensure commitment is_text lookup without
  verify_record_commitment m = do
    actual ← commitment codec (Json.object (without "record_commitment" m))
    ensure (is_text actual (lookup "record_commitment" m)) "RECORD_COMMITMENT_MISMATCH"
        "record commitment mismatch"
    accept actual

  unfoldable pub verify_record : Json → Verdict VerifiedFacts
  unfolding require_dict verify_header verify_inputs check_statuses verify_decision
      verify_record_commitment
  verify_record value = do
    m ← require_dict (some value) "record"
    verify_header m
    inputs ← verify_inputs m
    statuses ← check_statuses inputs.evaluation_time inputs.evidence inputs.obligations
    verify_decision m inputs
    actual ← verify_record_commitment m
    accept (record { record_commitment = actual; evidence_statuses = statuses })
