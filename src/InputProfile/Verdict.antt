-- ===== src/InputProfile/Verdict.antt =====
-- `ProfileValidationError`, the helpers that raise it, and commitments.
pub mod Accepted
use cognous_agent_control_pl.Base.{
  ℕ, String, Bool, true, false, Option, none, some, List, [], ◌∷◌, ◌≡◌, refl, not, mem, fstring,
  is_blank, starts_with, if◌then◌else◌,
}
use cognous_agent_control_pl.Bounded.Documents.{Timestamp}
use cognous_agent_control_pl.InputProfile.Json.{Json, Elements, Members, list_of, lookup, is_text}

-- A ProfileValidationError with its code and message, or the TypeError of a value that cannot be
-- hashed or iterated.
pub data Refusal : Type 0 where
  profile_error : String → String → Refusal
  type_error : Refusal

pub data Verdict (A : Type 0) : Type 0 where
  accept : A → Verdict A
  reject : Refusal → Verdict A

infixl 5 ◌>>=◌ ◌>>◌
unfoldable pub ◌>>=◌ : {A B : Type 0} → Verdict A → (A → Verdict B) → Verdict B
◌>>=◌ (accept a) f = f a
◌>>=◌ (reject e) f = reject e

abbrev pub ◌>>◌ : {A B : Type 0} → Verdict A → Verdict B → Verdict B
m >> k = m >>= λ _. k

pub bind-accept :
    {A B : Type 0} (m : Verdict A) (f : A → Verdict B) {b : B}
    → (m >>= f) ≡ accept b
    → (a : A) × (m ≡ accept a) × (f a ≡ accept b)
unfolding ◌>>=◌
bind-accept (accept a) f h = (a, refl, h)
bind-accept (reject e) f h = cc

-- An accepted chain: its first step is accepted with some value, and the rest with that value.
pub after :
    {A B : Type 0} {m : Verdict A} {f : A → Verdict B} {b : B} {P : Type 0}
    → (m >>= f) ≡ accept b
    → ((a : A) → m ≡ accept a → f a ≡ accept b → P)
    → P
after {m} {f} h k = let (a, e, rest) = bind-accept m f h in k a e rest

-- `if not b: raise ProfileValidationError(code, message)`
unfoldable pub ensure : Bool → String → String → Verdict Unit
ensure true code message = accept tt
ensure false code message = reject (Refusal.profile_error code message)

pub ensure-accept :
    (b : Bool) (code message : String) {u : Unit} → ensure b code message ≡ accept u → b ≡ true
unfolding ensure
ensure-accept true code message h = refl
ensure-accept false code message h = cc

abbrev pub invalid : {A : Type 0} → String → Verdict A
invalid message = reject (Refusal.profile_error "INPUT_INVALID" message)

-- The list that a comprehension or a loop makes: the first failure ends it.
unfoldable pub each : {A B : Type 0} → (A → Verdict B) → List A → Verdict (List B)
each f [] = accept []
each f (x ∷ xs) = do y ← f x; ys ← each f xs; accept (y ∷ ys)

unfoldable pub require_dict : Option Json → String → Verdict Members
require_dict (some (Json.object m)) path = accept m
require_dict _ path = invalid (fstring (path ∷ " must be an object" ∷ []))

unfoldable pub require_list : Option Json → String → Verdict (List Json)
unfolding list_of
require_list (some (Json.array xs)) path = accept (list_of xs)
require_list _ path = invalid (fstring (path ∷ " must be an array" ∷ []))

unfoldable pub require_nonempty_string : Option Json → String → Verdict String
unfolding is_blank
require_nonempty_string (some (Json.text s)) path =
    if is_blank s then invalid (fstring (path ∷ " must be a non-empty string" ∷ [])) else accept s
require_nonempty_string _ path = invalid (fstring (path ∷ " must be a non-empty string" ∷ []))

-- `value in {...}` of a set of strings: a list or an object cannot be hashed.
unfoldable pub is_one_of : List String → Option Json → Verdict Bool
is_one_of xs (some (Json.text s)) = accept (mem s xs)
is_one_of xs (some (Json.array ys)) = reject Refusal.type_error
is_one_of xs (some (Json.object m)) = reject Refusal.type_error
is_one_of xs _ = accept false

-- Each of a list of objects.
unfoldable pub require_dicts : Option Json → String → Verdict (List Members)
unfolding each require_list require_dict
require_dicts o path = do
  xs ← require_list o path
  each (λ x. require_dict (some x) (fstring (path ∷ "[]" ∷ []))) xs

-- `json.dumps` with the options of the program, or the text of what it raises.
pub data Encoded : Type 0 where
  encoded : String → Encoded
  refused : String → Encoded

pub record Codec : Type 0 where
  pub dumps : Json → Encoded
  pub sha256 : String → String
  pub fromisoformat : String → Timestamp

abbrev committed : (String → String) → Encoded → Verdict String
committed sha256 (Encoded.encoded s) = accept (fstring ("sha256:" ∷ sha256 s ∷ []))
committed sha256 (Encoded.refused e) = reject (Refusal.profile_error "CANONICALIZATION_REJECTED" e)

abbrev instant : String → Timestamp → Verdict ℕ
instant code Timestamp.malformed = reject (Refusal.profile_error code "timestamp is malformed")
instant code (Timestamp.naive t) =
    reject (Refusal.profile_error code "timestamp must include a timezone")
instant code (Timestamp.aware t) = accept t

module _ (codec : Codec) where
  -- `commitment`, with `canonical_bytes`
  unfoldable pub commitment : Json → Verdict String
  commitment v = committed codec.sha256 (codec.dumps v)

  unfoldable pub parse_time : Option Json → String → Verdict ℕ
  unfolding is_blank
  parse_time (some (Json.text s)) code =
      if is_blank s
      then reject (Refusal.profile_error code "timestamp must be a non-empty string")
      else instant code (codec.fromisoformat s)
  parse_time _ code = reject (Refusal.profile_error code "timestamp must be a non-empty string")

  -- A text that starts with "sha256:"
  unfoldable pub require_sha256 : Option Json → String → Verdict String
  require_sha256 (some (Json.text s)) message =
      if starts_with s "sha256:" then accept s else invalid message
  require_sha256 _ message = invalid message

  abbrev named : Option Json → String → Verdict Json
  named none key = invalid (fstring ("missing " ∷ key ∷ []))
  named (some v) key = accept v

  -- `_verify_named_commitment`, and the commitment that was verified
  unfoldable pub verify_named_commitment : Members → String → String → String → Verdict String
  unfolding require_sha256 commitment ensure lookup is_text
  verify_named_commitment container value_key commitment_key code = do
    value ← named (lookup value_key container) value_key
    expected ←
        require_sha256 (lookup commitment_key container)
          (fstring ("missing or malformed " ∷ commitment_key ∷ []))
    actual ← commitment value
    ensure (is_text actual (some (Json.text expected))) code
        (fstring (commitment_key ∷ " does not match " ∷ value_key ∷ []))
    accept expected
