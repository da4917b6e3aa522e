-- ===== src/InputProfile/Evidence.antt =====
-- src/agent_control_plane/decision_input_profile.py: evidence items and their classification.
pub mod Satisfied
pub mod Admissible
use cognous_agent_control_pl.Base.{
  ℕ, ◌+◌, ◌*◌, String, Bool, true, false, Option, none, some, List, [], ◌∷◌, ◌||◌, ◌&&◌, not, ltb,
  any, keep, mem, ◌==◌, fstring, is_empty, if◌then◌else◌,
}
use cognous_agent_control_pl.Bounded.Documents.{second}
use cognous_agent_control_pl.InputProfile.Json.{Json, Members, list_of, lookup, is_text}
use cognous_agent_control_pl.InputProfile.Verdict.{
  Refusal, Verdict, accept, reject, ◌>>=◌, ◌>>◌, ensure, invalid, each, require_dict, require_list,
  require_nonempty_string, is_one_of, Codec, parse_time, verify_named_commitment,
}
use cognous_agent_control_pl.InputProfile.Obligations.{Obligation, obligation_named}

abbrev pub assurance_classes : List String
assurance_classes =
    "trusted_declaration" ∷ "locally_recomputable_commitment" ∷ "authenticated_source"
    ∷ "externally_verified_fact" ∷ []

pub data DeclaredState : Type 0 where
  current unknown conflict : DeclaredState

-- An item that was validated. Its `observed_at` is the instant that the text stands for.
pub record EvidenceItem : Type 0 where
  pub evidence_id : String
  pub obligation_ids : List String
  pub source_ref : String
  pub observed_at : ℕ
  pub declared_state : DeclaredState
  pub content_commitment : String

abbrev about : String → String → String
about id rest = fstring ("evidence " ∷ id ∷ rest ∷ [])

abbrev nonempty_text : String → Json → Verdict String
nonempty_text id (Json.text s) =
    if s == "" then invalid (about id ".obligation_ids must contain strings") else accept s
nonempty_text id _ = invalid (about id ".obligation_ids must contain strings")

-- `len(set(xs)) != len(xs)`
unfoldable pub has_duplicates : List String → Bool
has_duplicates [] = false
has_duplicates (x ∷ xs) = mem x xs || has_duplicates xs

unfoldable pub state_of : Option Json → String → Verdict DeclaredState
state_of (some (Json.text s)) id =
    if s == "current"
    then accept DeclaredState.current
    else if s == "unknown"
    then accept DeclaredState.unknown
    else if s == "conflict"
    then accept DeclaredState.conflict
    else reject (
        Refusal.profile_error "EVIDENCE_STATE_INVALID"
          (about id ".declared_state must be one of ['conflict', 'current', 'unknown']"))
state_of _ id = reject (
    Refusal.profile_error "EVIDENCE_STATE_INVALID"
      (about id ".declared_state must be one of ['conflict', 'current', 'unknown']"))

abbrev admits_named : String → String → String → Option Obligation → Verdict Unit
admits_named id source oid none = reject (
    Refusal.profile_error "EVIDENCE_OBLIGATION_UNKNOWN"
      (about id (fstring (" references unknown obligation " ∷ oid ∷ []))))
admits_named id source oid (some o) =
    if source == o.source_ref
    then accept tt
    else reject (
        Refusal.profile_error "EVIDENCE_SOURCE_MISMATCH" (
          about id
            (fstring (" source " ∷ source ∷ " is not admissible for obligation " ∷ oid ∷ []))))

module _ (codec : Codec) (known : List Obligation) (now : ℕ) where
  -- The loop over `obligation_ids`.
  unfoldable pub admit_sources : String → String → List String → Verdict Unit
  unfolding obligation_named
  admit_sources id source [] = accept tt
  admit_sources id source (oid ∷ oids) = do
    admits_named id source oid (obligation_named oid known)
    admit_sources id source oids

  -- `_validate_evidence_item_fields`, with the fields that it has validated and the commitment that
  -- was verified before it
  unfoldable pub validate_evidence_item_fields : Members → String → Verdict EvidenceItem
  unfolding ensure each require_nonempty_string require_list has_duplicates admit_sources parse_time
      state_of require_dict lookup
  validate_evidence_item_fields m content = do
    id ← require_nonempty_string (lookup "evidence_id" m) "evidence_items[].evidence_id"
    ids ← require_list (lookup "obligation_ids" m) (about id ".obligation_ids")
    ensure (not (is_empty ids)) "INPUT_INVALID" (about id ".obligation_ids must not be empty")
    oids ← each (nonempty_text id) ids
    ensure (not (has_duplicates oids)) "INPUT_INVALID"
        (about id ".obligation_ids contains duplicates")
    source ← require_nonempty_string (lookup "source_ref" m) (about id ".source_ref")
    admit_sources id source oids
    observed ← parse_time codec (lookup "observed_at" m) "EVIDENCE_TIME_INVALID"
    ensure (not (ltb now observed)) "EVIDENCE_TIME_FUTURE"
        (about id ".observed_at is after evaluation_time")
    state ← state_of (lookup "declared_state" m) id
    provenance ← require_dict (lookup "provenance" m) (about id ".provenance")
    provenance_source ←
        require_nonempty_string (lookup "source_ref" provenance) (about id ".provenance.source_ref")
    ensure (provenance_source == source) "EVIDENCE_PROVENANCE_SOURCE_MISMATCH"
        (about id " provenance source does not match evidence source")
    accept (record {
      evidence_id = id;
      obligation_ids = oids;
      source_ref = source;
      observed_at = observed;
      declared_state = state;
      content_commitment = content;
    })

  -- One round of the loop over the evidence items.
  unfoldable pub verify_evidence_item : Members → Verdict EvidenceItem
  unfolding ensure verify_named_commitment is_one_of validate_evidence_item_fields lookup
  verify_evidence_item m = do
    content ←
        verify_named_commitment codec m "content" "content_commitment"
          "EVIDENCE_CONTENT_COMMITMENT_MISMATCH"
    verify_named_commitment codec m "provenance" "provenance_commitment"
        "EVIDENCE_PROVENANCE_COMMITMENT_MISMATCH"
    classified ← is_one_of assurance_classes (lookup "assurance_class" m)
    ensure classified "INPUT_INVALID" "invalid evidence assurance class"
    validate_evidence_item_fields m content

pub data EvidenceStanding : Type 0 where
  missing conflicting unknown stale valid : EvidenceStanding

abbrev pub standing_name : EvidenceStanding → String
standing_name EvidenceStanding.missing = "MISSING"
standing_name EvidenceStanding.conflicting = "CONFLICT"
standing_name EvidenceStanding.unknown = "UNKNOWN"
standing_name EvidenceStanding.stale = "STALE"
standing_name EvidenceStanding.valid = "VALID"

abbrev pub is_conflict : DeclaredState → Bool
is_conflict DeclaredState.conflict = true
is_conflict _ = false

abbrev pub is_unknown : DeclaredState → Bool
is_unknown DeclaredState.unknown = true
is_unknown _ = false

-- The set of the items' content commitments has more than one member: one differs from the first.
abbrev pub several_contents : List EvidenceItem → Bool
several_contents [] = false
several_contents (x ∷ xs) = any (λ y. not (y.content_commitment == x.content_commitment)) xs

abbrev pub candidates : String → List EvidenceItem → List EvidenceItem
candidates oid = keep (λ x. mem oid x.obligation_ids)

abbrev pub is_stale : ℕ → ℕ → EvidenceItem → Bool
is_stale now max_age x = ltb (x.observed_at + max_age * second) now

-- The tests on the candidates. What is neither in conflict nor unknown is current.
unfoldable pub classify : ℕ → ℕ → List EvidenceItem → EvidenceStanding
classify now max_age xs =
    if is_empty xs
    then EvidenceStanding.missing
    else if any (λ x. is_conflict x.declared_state) xs || several_contents xs
    then EvidenceStanding.conflicting
    else if any (λ x. is_unknown x.declared_state) xs
    then EvidenceStanding.unknown
    else if any (is_stale now max_age) xs
    then EvidenceStanding.stale
    else EvidenceStanding.valid

-- `_evidence_status`
unfoldable pub evidence_status : ℕ → List EvidenceItem → Obligation → EvidenceStanding
unfolding classify
evidence_status now items o = classify now o.max_age_seconds (candidates o.obligation_id items)
