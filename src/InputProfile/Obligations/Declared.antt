-- ===== src/InputProfile/Obligations/Declared.antt =====
-- What the policies and the resolver semantics of a verified record establish.
use cognous_agent_control_pl.Base.{
  String, Bool, true, false, Option, none, some, List, [], ◌∷◌, ◌≡◌, ◌⊎◌, inl, inr, refl, sym, ap,
  ◌∙◌, ◌==◌, ◌&&◌, ◌||◌, eq_iff, map, length, arith, is_blank, Bool-cases,
}
use cognous_agent_control_pl.InputProfile.Json.{Json, Elements, Members, list_of, pairs_of, lookup}
use cognous_agent_control_pl.InputProfile.Verdict.{
  accept, after, ensure-accept, require_nonempty_string, Codec,
}
use cognous_agent_control_pl.InputProfile.Verdict.Accepted.{
  not_accepted, same_accepted, is_text-some, IsNamed, verify_named_commitment-IsNamed,
}
use cognous_agent_control_pl.InputProfile.Obligations.{
  PolicyKey, knows_policy, classifier_texts, agrees, counts_five, are_texts, is_text_list,
  is_supported_semantics, verify_policies, validate_resolver_semantics,
}

pub require_nonempty_string-text :
    (o : Option Json) (path : String) {s : String}
    → require_nonempty_string o path ≡ accept s
    → o ≡ some (Json.text s)
unfolding require_nonempty_string
require_nonempty_string-text (some (Json.text t)) path h = elim (Bool-cases (is_blank t)) [
  | inl e ↦ absurd (not_accepted (rw e at h))
  | inr e ↦ ap (λ x. some (Json.text x)) (sym (same_accepted (rw e at h)))
]
require_nonempty_string-text none path h = cc
require_nonempty_string-text (some Json.null) path h = cc
require_nonempty_string-text (some (Json.boolean b)) path h = cc
require_nonempty_string-text (some (Json.integer n)) path h = cc
require_nonempty_string-text (some (Json.negative_integer n)) path h = cc
require_nonempty_string-text (some (Json.float n)) path h = cc
require_nonempty_string-text (some (Json.array xs)) path h = cc
require_nonempty_string-text (some (Json.object m)) path h = cc

some_same : {x y : Json} → some x ≡ some y → x ≡ y
some_same h = cc

first_of : (a b : Bool) → (a && b) ≡ true → a ≡ true
first_of a b h = ground arith

second_of : (a b : Bool) → (a && b) ≡ true → b ≡ true
second_of a b h = ground arith

length_five : (xs : List (String × Json)) → counts_five xs ≡ true → length xs ≡ 5
length_five (a ∷ b ∷ c ∷ d ∷ e ∷ []) h = refl
length_five [] h = cc
length_five (a ∷ []) h = cc
length_five (a ∷ b ∷ []) h = cc
length_five (a ∷ b ∷ c ∷ []) h = cc
length_five (a ∷ b ∷ c ∷ d ∷ []) h = cc
length_five (a ∷ b ∷ c ∷ d ∷ e ∷ f ∷ xs) h = cc

are_texts-same :
    (ss : List String) (xs : Elements) → are_texts ss xs ≡ true → list_of xs ≡ map Json.text ss
unfolding list_of
are_texts-same [] Elements.nil h = refl
are_texts-same [] (Elements.cons x xs) h = cc
are_texts-same (s ∷ ss) Elements.nil h = cc
are_texts-same (s ∷ ss) (Elements.cons x xs) h =
    ap (◌∷◌ x) (are_texts-same ss xs (second_of _ _ h))
    ∙ ap (λ y. y ∷ map Json.text ss) (some_same (is_text-some s (some x) (first_of _ _ h)))

abbrev precedence : List String
precedence = "CONFLICT" ∷ "UNKNOWN" ∷ "STALE" ∷ "MISSING" ∷ "VALID" ∷ []

is_text_list-array :
    (ss : List String) (o : Option Json)
    → is_text_list ss o ≡ true
    → (xs : Elements) × (o ≡ some (Json.array xs)) × (list_of xs ≡ map Json.text ss)
is_text_list-array ss (some (Json.array xs)) h = (xs, refl, are_texts-same ss xs h)
is_text_list-array ss none h = cc
is_text_list-array ss (some Json.null) h = cc
is_text_list-array ss (some (Json.boolean b)) h = cc
is_text_list-array ss (some (Json.integer n)) h = cc
is_text_list-array ss (some (Json.negative_integer n)) h = cc
is_text_list-array ss (some (Json.float n)) h = cc
is_text_list-array ss (some (Json.text s)) h = cc
is_text_list-array ss (some (Json.object m)) h = cc

-- The texts that the members hold.
abbrev Holds : Members → List (String × String) → Type 0
Holds m [] = Unit
Holds m ((k, s) ∷ rest) = (lookup k m ≡ some (Json.text s)) × Holds m rest

agrees-Holds :
    (m : Members) (texts : List (String × String)) → agrees m texts ≡ true → Holds m texts
agrees-Holds m [] h = tt
agrees-Holds m ((k, s) ∷ rest) h =
    (is_text-some s (lookup k m) (first_of _ _ h), agrees-Holds m rest (second_of _ _ h))

-- The one semantics that the program implements: an object of five members with these values.
pub record IsSupported (o : Option Json) : Type 0 where
  pub members : Members
  pub is_object : o ≡ some (Json.object members)
  pub five : length (pairs_of members) ≡ 5
  pub classifier :
      lookup "classifier" members ≡ some (Json.text "exact-source-current-with-max-age")
  pub version : lookup "version" members ≡ some (Json.text "1")
  pub source : lookup "admissible_source" members ≡ some (Json.text "exact-match")
  pub future : lookup "future_observation" members ≡ some (Json.text "reject")
  pub order : Elements
  pub ordered : lookup "precedence" members ≡ some (Json.array order)
  pub in_order : list_of order ≡ map Json.text precedence

is_supported_semantics-IsSupported :
    (o : Option Json) → is_supported_semantics o ≡ true → IsSupported o
unfolding is_supported_semantics
is_supported_semantics-IsSupported (some (Json.object m)) h =
    let (classifier, rest) = agrees-Holds m classifier_texts (first_of _ _ (first_of _ _ h)) in
    let (version, rest) = rest in
    let (source, rest) = rest in
    let (future, _) = rest in
    let (order, ordered, in_order) =
      is_text_list-array precedence (lookup "precedence" m) (second_of _ _ (first_of _ _ h)) in
    record {
      members = m;
      is_object = refl;
      five = length_five (pairs_of m) (second_of _ _ h);
      classifier = classifier;
      version = version;
      source = source;
      future = future;
      order = order;
      ordered = ordered;
      in_order = in_order;
    }
is_supported_semantics-IsSupported none h = cc
is_supported_semantics-IsSupported (some Json.null) h = cc
is_supported_semantics-IsSupported (some (Json.boolean b)) h = cc
is_supported_semantics-IsSupported (some (Json.integer n)) h = cc
is_supported_semantics-IsSupported (some (Json.negative_integer n)) h = cc
is_supported_semantics-IsSupported (some (Json.float n)) h = cc
is_supported_semantics-IsSupported (some (Json.text s)) h = cc
is_supported_semantics-IsSupported (some (Json.array xs)) h = cc

either_of : (a b : Bool) → (a || b) ≡ true → (a ≡ true) ⊎ (b ≡ true)
either_of true b h = inl refl
either_of false b h = inr h

module _ (codec : Codec) where
  -- A policy object with this reference and version, whose commitments are those of its content and
  -- of its evaluation semantics.
  pub record IsPolicy (ref version : String) (m : Members) : Type 0 where
    pub of_ref : lookup "ref" m ≡ some (Json.text ref)
    pub of_version : lookup "version" m ≡ some (Json.text version)
    pub digest : String
    pub content : IsNamed codec m "content" "content_commitment" digest
    pub semantics_digest : String
    pub semantics :
        IsNamed codec m "evaluation_semantics" "evaluation_semantics_commitment" semantics_digest

  -- One of the policy objects is it.
  abbrev pub HasPolicy : String → String → List Members → Type 0
  HasPolicy ref version [] = ⊥
  HasPolicy ref version (m ∷ ms) = IsPolicy ref version m ⊎ HasPolicy ref version ms

  same-IsPolicy :
      (ref version r v : String) (m : Members)
      → IsPolicy r v m
      → (r == ref && v == version) ≡ true
      → IsPolicy ref version m
  same-IsPolicy ref version r v m k h =
      let r_same = (eq_iff r ref).0 (first_of _ _ h) in
      let v_same = (eq_iff v version).0 (second_of _ _ h) in
      record {
        of_ref = k.of_ref ∙ ap (λ s. some (Json.text s)) r_same;
        of_version = k.of_version ∙ ap (λ s. some (Json.text s)) v_same;
        digest = k.digest;
        content = k.content;
        semantics_digest = k.semantics_digest;
        semantics = k.semantics;
      }

  module _ (ref version : String) where
    known_or_declared :
        (known : List PolicyKey) (r v : String) (m : Members) (ms : List Members)
        → IsPolicy r v m
        → (knows_policy (ref, version) ((r, v) ∷ known) ≡ true) ⊎ HasPolicy ref version ms
        → (knows_policy (ref, version) known ≡ true) ⊎ HasPolicy ref version (m ∷ ms)
    known_or_declared known r v m ms k (inr later) = inr (inr later)
    known_or_declared known r v m ms k (inl h) =
        elim (either_of (r == ref && v == version) (knows_policy (ref, version) known) h) [
          | inl e ↦ inr (inl (same-IsPolicy ref version r v m k e))
          | inr e ↦ inl e
        ]

    pub verify_policies-HasPolicy :
        (known : List PolicyKey) (ms : List Members) (keys : List PolicyKey)
        → verify_policies codec known ms ≡ accept keys
        → knows_policy (ref, version) keys ≡ true
        → (knows_policy (ref, version) known ≡ true) ⊎ HasPolicy ref version ms
    unfolding verify_policies
    verify_policies-HasPolicy known [] keys h k =
        inl (ap (knows_policy (ref, version)) (sym (same_accepted h)) ∙ k)
    verify_policies-HasPolicy known (m ∷ ms) keys h k = after h (λ r r_is h. after h (λ v v_is h.
        after h (λ u fresh h. after h (λ d content h. after h (λ s semantics h.
          known_or_declared known r v m ms
            (record {
              of_ref = require_nonempty_string-text (lookup "ref" m) _ r_is;
              of_version = require_nonempty_string-text (lookup "version" m) _ v_is;
              digest = d;
              content = verify_named_commitment-IsNamed codec m _ _ _ content;
              semantics_digest = s;
              semantics = verify_named_commitment-IsNamed codec m _ _ _ semantics;
            })
            (verify_policies-HasPolicy ((r, v) ∷ known) ms keys h k))))))

  -- The semantics that the program implements, and their commitment.
  pub record IsResolver (m : Members) (declared : String) : Type 0 where
    pub named :
        IsNamed codec m "classification_semantics" "classification_semantics_commitment" declared
    pub supported : IsSupported (lookup "classification_semantics" m)

  pub validate_resolver_semantics-IsResolver :
      (m : Members) (declared : String)
      → validate_resolver_semantics codec m ≡ accept declared
      → IsResolver m declared
  unfolding validate_resolver_semantics
  validate_resolver_semantics-IsResolver m declared h = after h (λ d named h. after h (λ u known h.
      rw (same_accepted h) (record {
        named = verify_named_commitment-IsNamed codec m _ _ _ named;
        supported = is_supported_semantics-IsSupported _ (ensure-accept _ _ _ known);
      })))
