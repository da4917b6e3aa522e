-- ===== src/InputProfile/Obligations/Bound.antt =====
-- What an obligation of a verified record establishes.
use cognous_agent_control_pl.Base.{
  ℕ, String, Bool, true, Option, none, some, List, [], ◌∷◌, ◌≡◌, refl, sym, ap, ◌∙◌, ◌&&◌, eq_iff,
  All, map, arith,
}
use cognous_agent_control_pl.InputProfile.Json.{Json, Members, lookup}
use cognous_agent_control_pl.InputProfile.Verdict.{accept, after, ensure-accept, Codec, commitment}
use cognous_agent_control_pl.InputProfile.Verdict.Accepted.{
  same_accepted, HasCommitment, checked, require_sha256-text,
}
use cognous_agent_control_pl.InputProfile.Obligations.{
  supported_resolution, Obligation, PolicyKey, knows_policy, required_flag, age_limit,
  obligation_payload, validate_obligation_fields, verify_obligations,
}
use cognous_agent_control_pl.InputProfile.Obligations.Declared.{
  require_nonempty_string-text, HasPolicy,
}

required_flag-is :
    (o : Option Json) (oid : String) {b : Bool}
    → required_flag o oid ≡ accept b
    → o ≡ some (Json.boolean b)
required_flag-is (some (Json.boolean b)) oid h =
    ap (λ x. some (Json.boolean x)) (sym (same_accepted h))
required_flag-is none oid h = cc
required_flag-is (some Json.null) oid h = cc
required_flag-is (some (Json.integer n)) oid h = cc
required_flag-is (some (Json.negative_integer n)) oid h = cc
required_flag-is (some (Json.float n)) oid h = cc
required_flag-is (some (Json.text s)) oid h = cc
required_flag-is (some (Json.array xs)) oid h = cc
required_flag-is (some (Json.object m)) oid h = cc

age_limit-is :
    (o : Option Json) (oid : String) {n : ℕ}
    → age_limit o oid ≡ accept n
    → o ≡ some (Json.integer n)
age_limit-is (some (Json.integer n)) oid h = ap (λ x. some (Json.integer x)) (sym (same_accepted h))
age_limit-is none oid h = cc
age_limit-is (some Json.null) oid h = cc
age_limit-is (some (Json.boolean b)) oid h = cc
age_limit-is (some (Json.negative_integer n)) oid h = cc
age_limit-is (some (Json.float n)) oid h = cc
age_limit-is (some (Json.text s)) oid h = cc
age_limit-is (some (Json.array xs)) oid h = cc
age_limit-is (some (Json.object m)) oid h = cc

-- The texts, the flag and the age that the object of an obligation says.
pub record IsRead (o : Obligation) : Type 0 where
  pub named : lookup "obligation_id" o.source ≡ some (Json.text o.obligation_id)
  pub origin : lookup "policy_origin_ref" o.source ≡ some (Json.text o.policy_origin_ref)
  pub version : lookup "policy_origin_version" o.source ≡ some (Json.text o.policy_origin_version)
  pub flag : lookup "required" o.source ≡ some (Json.boolean o.required)
  pub from_source : lookup "source_ref" o.source ≡ some (Json.text o.source_ref)
  pub age : lookup "max_age_seconds" o.source ≡ some (Json.integer o.max_age_seconds)
  pub resolution :
      lookup "resolution_semantics_id" o.source ≡ some (Json.text o.resolution_semantics_id)
  pub resolution_commitment :
      lookup "resolution_semantics_commitment" o.source
      ≡ some (Json.text o.resolution_semantics_commitment)

-- The meaning of an obligation, which its commitment is of.
abbrev pub meaning_of : Obligation → Json
meaning_of o = Json.object (
    Members.member "obligation_id" (Json.text o.obligation_id) (
      Members.member "policy_origin_ref" (Json.text o.policy_origin_ref) (
        Members.member "policy_origin_version" (Json.text o.policy_origin_version) (
          Members.member "required" (Json.boolean o.required) (
            Members.member "source_ref" (Json.text o.source_ref) (
              Members.member "max_age_seconds" (Json.integer o.max_age_seconds) (
                Members.member "resolution_semantics_id" (Json.text o.resolution_semantics_id) (
                  Members.member "resolution_semantics_commitment"
                    (Json.text o.resolution_semantics_commitment) Members.end))))))))

meaning_of-obligation_payload :
    (o : Obligation) → IsRead o → obligation_payload o.source ≡ meaning_of o
unfolding obligation_payload
meaning_of-obligation_payload o k = rw (
  k.named, k.origin, k.version, k.flag, k.from_source, k.age, k.resolution, k.resolution_commitment,
)

module _ (codec : Codec) (objects : List Members) (semantics : String) where
  -- What the object says, the policy object that it comes from, the semantics that resolve it, and
  -- the commitment to its meaning.
  pub record IsBound (o : Obligation) : Type 0 where
    pub read : IsRead o
    pub policy : HasPolicy codec o.policy_origin_ref o.policy_origin_version objects
    pub supported : o.resolution_semantics_id ≡ supported_resolution
    pub resolved_by : o.resolution_semantics_commitment ≡ semantics
    pub meaning : HasCommitment codec (meaning_of o) (lookup "obligation_commitment" o.source)

  validate_obligation_fields-IsRead :
      (m : Members) (o : Obligation)
      → validate_obligation_fields codec m ≡ accept o
      → (o.source ≡ m) × IsRead o
  unfolding validate_obligation_fields
  validate_obligation_fields-IsRead m o h = after h (λ oid named h. after h (λ origin origin_is h.
      after h (λ version version_is h. after h (λ required flag h. after h (λ source source_is h.
        after h (λ max_age age h. after h (λ resolution resolution_is h.
          after h (λ resolution_commitment commitment_is h. rw (same_accepted h) (
            refl,
            record {
              named = require_nonempty_string-text (lookup "obligation_id" m) _ named;
              origin = require_nonempty_string-text (lookup "policy_origin_ref" m) _ origin_is;
              version =
                  require_nonempty_string-text (lookup "policy_origin_version" m) _ version_is;
              flag = required_flag-is _ oid flag;
              from_source = require_nonempty_string-text (lookup "source_ref" m) _ source_is;
              age = age_limit-is _ oid age;
              resolution =
                  require_nonempty_string-text (lookup "resolution_semantics_id" m) _ resolution_is;
              resolution_commitment =
                  require_sha256-text codec (lookup "resolution_semantics_commitment" m) _
                    commitment_is;
            },
          )))))))))

  meant :
      (o : Obligation)
      → IsRead o
      → HasCommitment codec (obligation_payload o.source) (lookup "obligation_commitment" o.source)
      → HasCommitment codec (meaning_of o) (lookup "obligation_commitment" o.source)
  meant o k c = record {
    digest = c.digest;
    computed = ap (commitment codec) (sym (meaning_of-obligation_payload o k)) ∙ c.computed;
    held = c.held;
  }

  first_of : (a b : Bool) → (a && b) ≡ true → a ≡ true
  first_of a b h = ground arith

  second_of : (a b : Bool) → (a && b) ≡ true → b ≡ true
  second_of a b h = ground arith

  pub verify_obligations-IsBound :
      (policies : List PolicyKey)
      → ((ref version : String)
          → knows_policy (ref, version) policies ≡ true
          → HasPolicy codec ref version objects)
      → (seen : List Obligation) (ms : List Members) (os : List Obligation)
      → verify_obligations codec policies semantics seen ms ≡ accept os
      → All IsBound os × (map (λ o. o.source) os ≡ ms)
  unfolding verify_obligations
  verify_obligations-IsBound policies declared seen [] os h = rw (same_accepted h) (tt, refl)
  verify_obligations-IsBound policies declared seen (m ∷ ms) os h = after h (λ o here h.
      after h (λ u e h. after h (λ u known h. after h (λ actual computed h. after h (λ u held h.
        after h (λ u resolved h. after h (λ rest later h.
          let (source, read) = validate_obligation_fields-IsRead m o here in
          let (all, same) = verify_obligations-IsBound policies declared (o ∷ seen) ms rest later in
          let bound : IsBound o = record {
            read = read;
            policy =
                declared o.policy_origin_ref o.policy_origin_version (ensure-accept _ _ _ known);
            supported = (eq_iff _ _).0 (first_of _ _ (ensure-accept _ _ _ resolved));
            resolved_by = (eq_iff _ _).0 (second_of _ _ (ensure-accept _ _ _ resolved));
            meaning = meant o read (rw source (checked codec _ _ _ _ computed held));
          } in
          rw (same_accepted h)
            ((bound, all), ap (λ x. x ∷ map (λ o. o.source) rest) source ∙ ap (◌∷◌ m) same))))))))
