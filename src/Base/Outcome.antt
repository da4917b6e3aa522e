-- ===== src/Base/Outcome.antt =====
-- Python's exceptions: a call returns or raises, and a method also leaves a state behind, whatever
-- it did. What was written before a raise stays written.
use mathlib.Core.Path.{◌≡◌, refl}
use mathlib.Core.Bool.{Bool, true, false, not}
use mathlib.Core.List.{List, [], ◌∷◌}
use mathlib.Core.Logic.{◌⊎◌, inl, inr}
use Prim.Native.String.{String}
use native.Mathlib.Omega.{arith}
use cognous_agent_control_pl.Base.Lists.{All}

-- The classes of exceptions that the program raises or catches.
pub data ExnKind : Type 0 where
  permission_error runtime_error timeout_error value_error type_error os_error : ExnKind
  json_error validation_error file_not_found other_error : ExnKind

pub record Exn : Type 0 where
  pub kind : ExnKind
  pub message : String

pub data Result {ℓ} (A : Type ℓ) : Type ℓ where
  ok : A → Result A
  raise : Exn → Result A

-- Calls that touch no state, in order.
abbrev pub bind {ℓ κ} : {A : Type ℓ} {B : Type κ} → Result A → (A → Result B) → Result B
bind (ok a) f = f a
bind (raise e) f = raise e

abbrev pub Exec : Type 0 → Type 0 → Type 0
Exec S A = S → Result A × S

module _ {S A : Type 0} where
  abbrev pub pure : A → Exec S A
  pure a s = (ok a, s)

  abbrev pub throw : ExnKind → String → Exec S A
  throw k m s = (raise (record { kind = k; message = m }), s)

  abbrev pub lift : Result A → Exec S A
  lift r s = (r, s)

  abbrev pub gets : (S → A) → Exec S A
  gets f s = (ok (f s), s)

abbrev pub continue : {S A B : Type 0} → Result A → (A → Exec S B) → Exec S B
continue (ok a) f s = f a s
continue (raise e) f s = (raise e, s)

infixl 5 ◌>>=◌ ◌>>◌
abbrev pub ◌>>=◌ : {S A B : Type 0} → Exec S A → (A → Exec S B) → Exec S B
◌>>=◌ m f s = let (r, s') = m s in continue r f s'

abbrev pub ◌>>◌ : {S A B : Type 0} → Exec S A → Exec S B → Exec S B
m >> k = m >>= λ _. k

pub Result-cases {ℓ} :
    {A : Type ℓ} (r : Result A) → ((a : A) × (r ≡ ok a)) ⊎ ((e : Exn) × (r ≡ raise e))
Result-cases (ok a) = inl (a, refl)
Result-cases (raise e) = inr (e, refl)

-- A test that may raise, with the reason that the code appends where it is true.
abbrev pub Check : Type 0
Check = Result Bool × String

abbrev add_reason : Bool → String → Result (List String) → Result (List String)
add_reason true r (ok rs) = ok (r ∷ rs)
add_reason false r (ok rs) = ok rs
add_reason _ r (raise e) = raise e

-- The tests in the order of the code: the reasons appended, or the first exception.
unfoldable pub failing : List Check → Result (List String)
failing [] = ok []
failing ((ok b, r) ∷ cs) = add_reason b r (failing cs)
failing ((raise e, r) ∷ cs) = raise e

abbrev pub Passes : Check → Type 0
Passes c = c.0 ≡ ok false

-- No reason was appended exactly when every test was evaluated and was false.
pub failing-Passes : (cs : List Check) → failing cs ≡ ok [] → All Passes cs
unfolding failing
failing-Passes [] h = tt
failing-Passes ((ok true, r) ∷ cs) h = absurd (ground arith)
failing-Passes ((ok false, r) ∷ cs) h = (refl, failing-Passes cs (ground arith))
failing-Passes ((raise e, r) ∷ cs) h = absurd (ground arith)

pub Passes-failing : (cs : List Check) → All Passes cs → failing cs ≡ ok []
unfolding failing
Passes-failing [] h = refl
Passes-failing ((ok true, r) ∷ cs) h = absurd (ground (arith, h.0))
Passes-failing ((ok false, r) ∷ cs) h = ground (arith, Passes-failing cs h.1)
Passes-failing ((raise e, r) ∷ cs) h = absurd (ground (arith, h.0))

-- `type(exc).__name__`
abbrev pub exn_name : ExnKind → String
exn_name permission_error = "PermissionError"
exn_name runtime_error = "RuntimeError"
exn_name timeout_error = "TimeoutError"
exn_name value_error = "ValueError"
exn_name type_error = "TypeError"
exn_name os_error = "OSError"
exn_name json_error = "JSONDecodeError"
exn_name validation_error = "ValidationError"
exn_name file_not_found = "FileNotFoundError"
exn_name other_error = "Exception"

-- `try: m except Exception as exc`: the outcome as a value.
abbrev pub attempting : {S A : Type 0} → Exec S A → Exec S (Result A)
attempting m s = let (r, s') = m s in (ok r, s')

-- `if b: m`
abbrev pub when : {S : Type 0} → Bool → Exec S Unit → Exec S Unit
when true m = m
when false m = pure tt

pub bind-eq-ok {ℓ κ} :
    {A : Type ℓ} {B : Type κ} (m : Result A) (f : A → Result B) {b : B}
    → bind m f ≡ ok b
    → (a : A) × (m ≡ ok a) × (f a ≡ ok b)
bind-eq-ok (ok a) f h = (a, refl, h)
bind-eq-ok (raise e) f h = cc

-- A passed test, in the positive.
pub not-false : (b : Bool) → ok (not b) ≡ ok false → b ≡ true
not-false true h = refl
not-false false h = cc

pub false_of_ok : (b : Bool) → ok b ≡ ok false → b ≡ false
false_of_ok b h = cc

pub true_passes : ok true ≡ ok false → ⊥
true_passes h = cc
