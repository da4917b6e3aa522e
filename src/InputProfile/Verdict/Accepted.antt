-- ===== src/InputProfile/Verdict/Accepted.antt =====
-- What the helpers of decision_input_profile.py establish when they do not raise.
use cognous_agent_control_pl.Base.{
  String, true, Option, none, some, ◌≡◌, sym, ap, ◌∙◌, eq_iff, inl, inr, starts_with, Bool-cases,
}
use cognous_agent_control_pl.InputProfile.Json.{Json, Members, lookup, is_text}
use cognous_agent_control_pl.InputProfile.Verdict.{
  Refusal, Verdict, accept, reject, after, ensure, ensure-accept, require_dict, Codec, commitment,
  require_sha256, named, verify_named_commitment,
}

pub is_text-some : (s : String) (o : Option Json) → is_text s o ≡ true → o ≡ some (Json.text s)
unfolding is_text
is_text-some s (some (Json.text t)) h = ap (λ x. some (Json.text x)) ((eq_iff t s).0 h)
is_text-some s none h = cc
is_text-some s (some Json.null) h = cc
is_text-some s (some (Json.boolean b)) h = cc
is_text-some s (some (Json.integer n)) h = cc
is_text-some s (some (Json.negative_integer n)) h = cc
is_text-some s (some (Json.float n)) h = cc
is_text-some s (some (Json.array xs)) h = cc
is_text-some s (some (Json.object m)) h = cc

pub same_accepted : {A : Type 0} {a b : A} → ◌≡◌ {A = Verdict A} (accept a) (accept b) → b ≡ a
same_accepted h = cc

text_same : {s t : String} → some (Json.text s) ≡ some (Json.text t) → s ≡ t
text_same h = cc

pub not_accepted : {A : Type 0} {e : Refusal} {a : A} → reject e ≡ accept a → ⊥
not_accepted h = cc

pub require_dict-object :
    (o : Option Json) (path : String) {m : Members}
    → require_dict o path ≡ accept m
    → o ≡ some (Json.object m)
unfolding require_dict
require_dict-object (some (Json.object m)) path h =
    ap (λ x. some (Json.object x)) (sym (same_accepted h))
require_dict-object none path h = cc
require_dict-object (some Json.null) path h = cc
require_dict-object (some (Json.boolean b)) path h = cc
require_dict-object (some (Json.integer n)) path h = cc
require_dict-object (some (Json.negative_integer n)) path h = cc
require_dict-object (some (Json.float n)) path h = cc
require_dict-object (some (Json.text s)) path h = cc
require_dict-object (some (Json.array xs)) path h = cc

-- A commitment that an object holds, of another of its values.
pub record HasCommitment (codec : Codec) (value : Json) (field : Option Json) : Type 0 where
  pub digest : String
  pub computed : commitment codec value ≡ accept digest
  pub held : field ≡ some (Json.text digest)

module _ (codec : Codec) where
  pub checked :
      (value : Json) (field : Option Json) (code message : String) {c : String} {u : Unit}
      → commitment codec value ≡ accept c
      → ensure (is_text c field) code message ≡ accept u
      → HasCommitment codec value field
  checked value field code message {c} computed h = record {
    digest = c;
    computed = computed;
    held = is_text-some c field (ensure-accept (is_text c field) code message h);
  }

  named-some :
      (o : Option Json) (key : String) {v : Json} → named codec o key ≡ accept v → o ≡ some v
  named-some none key h = cc
  named-some (some w) key h = ap some (sym (same_accepted h))

  pub require_sha256-text :
      (o : Option Json) (message : String) {s : String}
      → require_sha256 codec o message ≡ accept s
      → o ≡ some (Json.text s)
  unfolding require_sha256
  require_sha256-text (some (Json.text t)) message h = elim (Bool-cases (starts_with t "sha256:")) [
    | inl e ↦ ap (λ x. some (Json.text x)) (sym (same_accepted (rw e at h)))
    | inr e ↦ absurd (not_accepted (rw e at h))
  ]
  require_sha256-text none message h = cc
  require_sha256-text (some Json.null) message h = cc
  require_sha256-text (some (Json.boolean b)) message h = cc
  require_sha256-text (some (Json.integer n)) message h = cc
  require_sha256-text (some (Json.negative_integer n)) message h = cc
  require_sha256-text (some (Json.float n)) message h = cc
  require_sha256-text (some (Json.array xs)) message h = cc
  require_sha256-text (some (Json.object m)) message h = cc

  -- The value is there, and its commitment is the one that the object holds.
  pub record IsNamed (m : Members) (value_key commitment_key : String) (c : String) : Type 0 where
    pub value : Json
    pub there : lookup value_key m ≡ some value
    pub computed : commitment codec value ≡ accept c
    pub held : lookup commitment_key m ≡ some (Json.text c)

  pub verify_named_commitment-IsNamed :
      (m : Members) (value_key commitment_key code : String) {c : String}
      → verify_named_commitment codec m value_key commitment_key code ≡ accept c
      → IsNamed m value_key commitment_key c
  unfolding verify_named_commitment
  verify_named_commitment-IsNamed m value_key commitment_key code {c} h = after h (λ value there h.
      after h (λ expected held h. after h (λ actual computed h. after h (λ u equal h.
        let same =
          text_same (is_text-some actual (some (Json.text expected)) (ensure-accept _ _ _ equal)) in
        record {
          value = value;
          there = named-some (lookup value_key m) value_key there;
          computed = computed ∙ ap accept (sym same ∙ sym (same_accepted h));
          held =
              require_sha256-text (lookup commitment_key m) _ held
              ∙ ap (λ x. some (Json.text x)) (sym (same_accepted h));
        }))))
