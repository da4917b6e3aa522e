-- ===== src/Base/Texts.antt =====
-- Python's strings: equality, `strip`, membership, and `sorted(set(...))`.
use Prim.Native.Nat.{ℕ, zero, suc, ◌/◌, ◌%◌, Ordering}
use Prim.Native.Char.{code}
use Prim.Native.String.{String, compare, ◌++◌ as ◌+++◌}
use mathlib.Core.Path.{◌≡◌, refl}
use mathlib.Core.Logic.{◌≢◌, ◌↔◌, inl, inr}
use mathlib.Core.Bool.{Bool, true, false, ◌&&◌, ◌||◌, not}
use mathlib.Core.List.{List, [], ◌∷◌, ◌++◌}
use mathlib.Core.Option.{Option, none, some}
use native.Mathlib.Omega.{arith}
use text.Mathlib.Text.{◌==◌}
use text.Mathlib.TextEquality.{eq_iff}
use cognous_agent_control_pl.Base.Tests.{leb, ltb, nat_eq, if◌then◌else◌, Bool-cases}
use cognous_agent_control_pl.Base.Lists.{any, all}

decide_eq : (s t : String) (b : Bool) → (s == t) ≡ b → Dec (s ≡ t)
decide_eq s t true h = yes ((eq_iff s t).0 h)
decide_eq s t false h = no (λ e. ground (arith, (eq_iff s t).1 e))

unfoldable pub String-discrete : Discrete String
unfolding decide_eq
String-discrete s t = decide_eq s t (s == t) refl

-- `x in xs`
abbrev pub mem : String → List String → Bool
mem x = any (λ y. x == y)

-- `xs.issubset(ys)`
abbrev pub subset : List String → List String → Bool
subset xs ys = all (λ x. mem x ys) xs

-- `a == b` for values that may be None
abbrev pub opt_eq : Option String → Option String → Bool
opt_eq none none = true
opt_eq (some a) (some b) = a == b
opt_eq _ _ = false

-- The characters that `str.strip` removes.
abbrev is_space : ℕ → Bool
is_space c =
    (leb 9 c && leb c 13)
    || (leb 28 c && leb c 32)
    || nat_eq c 0x85
    || nat_eq c 0xa0
    || nat_eq c 0x1680
    || (leb 0x2000 c && leb c 0x200a)
    || nat_eq c 0x2028
    || nat_eq c 0x2029
    || nat_eq c 0x202f
    || nat_eq c 0x205f
    || nat_eq c 0x3000

-- `not s.strip()`
unfoldable pub is_blank : String → Bool
is_blank String.[] = true
is_blank (String.◌∷◌ c s) = is_space (code c) && is_blank s

-- One item more for `sorted(set(...))`.
insert_sorted : String → List String → List String
insert_sorted s [] = s ∷ []
insert_sorted s (t ∷ ts) =
    let rest = insert_sorted s ts in
    elim (compare s t) [ Ordering.lt ↦ s ∷ t ∷ ts | Ordering.eq ↦ t ∷ ts | Ordering.gt ↦ t ∷ rest ]

-- `sorted(set(xs))`
unfoldable pub sorted_set : List String → List String
unfolding insert_sorted
sorted_set [] = []
sorted_set (x ∷ xs) = insert_sorted x (sorted_set xs)

-- The text of an f-string, from its parts.
unfoldable pub fstring : List String → String
fstring [] = ""
fstring (s ∷ ss) = ◌+++◌ s (fstring ss)

-- The reason that the code appends where a test is true.
abbrev pub note : Bool → String → List String
note true r = r ∷ []
note false r = []

insert_sorted-ne-nil : (s : String) (ts : List String) → insert_sorted s ts ≢ []
unfolding insert_sorted
insert_sorted-ne-nil s [] h = cc
insert_sorted-ne-nil s (t ∷ ts) h = ground arith

-- Sorting without repetition loses no reason: the result is empty only if the list is.
pub sorted_set-nil : (xs : List String) → sorted_set xs ≡ [] → xs ≡ []
unfolding sorted_set
sorted_set-nil [] h = refl
sorted_set-nil (x ∷ xs) h = absurd (insert_sorted-ne-nil x (sorted_set xs) h)

mem-insert_sorted :
    (x s : String) (ts : List String) → mem x (insert_sorted s ts) ≡ (x == s || mem x ts)
unfolding insert_sorted
mem-insert_sorted x s [] = refl
mem-insert_sorted x s (t ∷ ts) =
    ground (arith, eq_iff s t, eq_iff x s, eq_iff x t, mem-insert_sorted x s ts)

-- Sorting without repetition keeps the members.
pub mem-sorted_set : (x : String) (xs : List String) → mem x (sorted_set xs) ≡ mem x xs
unfolding sorted_set
mem-sorted_set x [] = refl
mem-sorted_set x (y ∷ ys) =
    ground (arith, mem-insert_sorted x y (sorted_set ys), mem-sorted_set x ys)

pub note-nil : (b : Bool) (r : String) → note b r ≡ [] → b ≡ false
note-nil true r h = cc
note-nil false r h = refl

pub append-eq-nil {ℓ} : {A : Type ℓ} (xs ys : List A) → xs ++ ys ≡ [] → (xs ≡ []) × (ys ≡ [])
append-eq-nil [] ys h = (refl, h)
append-eq-nil (x ∷ xs) ys h = cc

pub opt_eq_iff : (a b : Option String) → (opt_eq a b ≡ true) ↔ (a ≡ b)
opt_eq_iff none none = (λ h. refl, λ h. refl)
opt_eq_iff none (some b) = (λ h. absurd (ground arith), λ h. absurd (ground arith))
opt_eq_iff (some a) none = (λ h. absurd (ground arith), λ h. absurd (ground arith))
opt_eq_iff (some a) (some b) = (λ h. ground (arith, eq_iff a b), λ h. ground (arith, eq_iff a b))

-- A test that holds for none of the items fails at each of them.
pub any-mem :
    (f : String → Bool) (xs : List String)
    → any f xs ≡ false
    → (k : String) → mem k xs ≡ true
    → f k ≡ false
any-mem f [] h k m = absurd (ground arith)
any-mem f (x ∷ xs) h k m = elim (Bool-cases (k == x)) [
  | inl e ↦ rw ((eq_iff k x).0 e) (ground arith)
  | inr e ↦ any-mem f xs (ground arith) k (ground arith)
]

pub mem-any :
    (f : String → Bool) (xs : List String)
    → ((k : String) → mem k xs ≡ true → f k ≡ false)
    → any f xs ≡ false
mem-any f [] h = refl
mem-any f (x ∷ xs) h =
    let here : f x ≡ false = h x (ground (arith, eq_iff x x)) in
    let later : any f xs ≡ false = mem-any f xs (λ k m. h k (ground arith)) in rw (here, later)

pub subset-mem :
    (xs ys : List String) → subset xs ys ≡ true → (k : String) → mem k xs ≡ true → mem k ys ≡ true
subset-mem [] ys h k m = absurd (ground arith)
subset-mem (x ∷ xs) ys h k m = elim (Bool-cases (k == x)) [
  | inl e ↦ rw ((eq_iff k x).0 e) (ground arith)
  | inr e ↦ subset-mem xs ys (ground arith) k (ground arith)
]

pub mem-subset :
    (xs ys : List String) → ((k : String) → mem k xs ≡ true → mem k ys ≡ true) → subset xs ys ≡ true
mem-subset [] ys h = refl
mem-subset (x ∷ xs) ys h =
    let here : mem x ys ≡ true = h x (ground (arith, eq_iff x x)) in
    let later : subset xs ys ≡ true = mem-subset xs ys (λ k m. h k (ground arith)) in
    rw (here, later)

insert_after : String → List String → List String
insert_after s [] = s ∷ []
insert_after s (t ∷ ts) =
    let rest = insert_after s ts in
    elim (compare s t) [
      | Ordering.lt ↦ s ∷ t ∷ ts
      | Ordering.eq ↦ s ∷ t ∷ ts
      | Ordering.gt ↦ t ∷ rest
    ]

-- `sorted(xs)`
unfoldable pub sorted : List String → List String
unfolding insert_after
sorted [] = []
sorted (x ∷ xs) = insert_after x (sorted xs)

-- `xs == ys`
abbrev pub list_eq : List String → List String → Bool
list_eq [] [] = true
list_eq (x ∷ xs) (y ∷ ys) = x == y && list_eq xs ys
list_eq _ _ = false

-- `str(n)`, by the remainders of division by ten; a number has at most as many digits as itself and
-- one more.
digit : ℕ → String
digit zero = "0"
digit (suc zero) = "1"
digit (suc (suc zero)) = "2"
digit (suc (suc (suc zero))) = "3"
digit (suc (suc (suc (suc zero)))) = "4"
digit (suc (suc (suc (suc (suc zero))))) = "5"
digit (suc (suc (suc (suc (suc (suc zero)))))) = "6"
digit (suc (suc (suc (suc (suc (suc (suc zero))))))) = "7"
digit (suc (suc (suc (suc (suc (suc (suc (suc zero)))))))) = "8"
digit (suc (suc (suc (suc (suc (suc (suc (suc (suc n))))))))) = "9"

digits : ℕ → ℕ → String → String
digits zero n after = after
digits (suc fuel) n after =
    let more = digits fuel (n / 10) (◌+++◌ (digit (n % 10)) after) in
    if ltb n 10 then ◌+++◌ (digit n) after else more

unfoldable pub decimal : ℕ → String
unfolding digit digits
decimal n = digits (suc n) n ""

decimal_example : decimal 207 ≡ "207"
unfolding decimal
decimal_example = refl

strip_left : String → String
strip_left String.[] = ""
strip_left (String.◌∷◌ c s) =
    let rest = strip_left s in if is_space (code c) then rest else String.◌∷◌ c s

-- The character is dropped if it is a space that nothing follows.
put_before : Bool → String → String → String
put_before true first String.[] = ""
put_before true first (String.◌∷◌ c s) = ◌+++◌ first (String.◌∷◌ c s)
put_before false first s = ◌+++◌ first s

strip_right : String → String
unfolding put_before
strip_right String.[] = ""
strip_right (String.◌∷◌ c s) = put_before (is_space (code c)) (String.◌∷◌ c "") (strip_right s)

-- `s.strip()`
unfoldable pub strip : String → String
unfolding strip_left strip_right
strip s = strip_right (strip_left s)

strip_example : strip "  a tenant " ≡ "a tenant"
unfolding strip
strip_example = refl

pub unequal : (s t : String) → not (s == t) ≡ false → s ≡ t
unequal s t h = ground (arith, eq_iff s t)
