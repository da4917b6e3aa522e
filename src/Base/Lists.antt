-- ===== src/Base/Lists.antt =====
-- Python's lists: lengths by native numbers, membership tests, `any`, `next`, comprehensions.
use Prim.Native.Nat.{ℕ, suc, ◌+◌}
use mathlib.Core.Path.{◌≡◌, ap}
use mathlib.Core.Bool.{Bool, true, false, ◌&&◌, ◌||◌}
use mathlib.Core.Option.{Option, none, some}
use mathlib.Core.List.{List, [], ◌∷◌, ◌++◌}
use native.Mathlib.Omega.{arith}
use mathlib.Core.Logic.{inl, inr}
use cognous_agent_control_pl.Base.Tests.{if◌then◌else◌, Bool-cases}

module _ {ℓ} {A : Type ℓ} where
  abbrev pub length : List A → ℕ
  length [] = 0
  length (x ∷ xs) = suc (length xs)

  pub length-append : (xs ys : List A) → length (xs ++ ys) ≡ length xs + length ys
  length-append [] ys = omega arith
  length-append (x ∷ xs) ys = omega (arith, length-append xs ys)

  abbrev pub is_empty : List A → Bool
  is_empty [] = true
  is_empty (_ ∷ _) = false

  -- `any(test(x) for x in xs)`
  abbrev pub any : (A → Bool) → List A → Bool
  any test [] = false
  any test (x ∷ xs) = test x || any test xs

  -- `all(test(x) for x in xs)`
  abbrev pub all : (A → Bool) → List A → Bool
  all test [] = true
  all test (x ∷ xs) = test x && all test xs

  -- `next((x for x in xs if test(x)), None)`
  abbrev pub find_first : (A → Bool) → List A → Option A
  find_first test [] = none
  find_first test (x ∷ xs) = if test x then some x else find_first test xs

  -- `[x for x in xs if test(x)]`
  abbrev pub keep : (A → Bool) → List A → List A
  keep test [] = []
  keep test (x ∷ xs) = let rest = keep test xs in if test x then x ∷ rest else rest

  -- Every item of the list has the property.
  abbrev pub All {κ} : (A → Type κ) → List A → Type κ
  All P [] = Unit
  All P (x ∷ xs) = P x × All P xs

module _ {ℓ κ} {A : Type ℓ} {B : Type κ} where
  -- A loop that appends a list for each item.
  abbrev pub concat_map : (A → List B) → List A → List B
  concat_map f [] = []
  concat_map f (x ∷ xs) = f x ++ concat_map f xs

some-inj {ℓ} : {A : Type ℓ} {x y : A} → some x ≡ some y → x ≡ y
some-inj h = cc

none-some {ℓ} : {A : Type ℓ} {x : A} → some x ≡ none → ⊥
none-some h = cc

module _ {ℓ} {A : Type ℓ} (test : A → Bool) where
  -- What `next` returns passes the test, and nothing before it does.
  pub find_first-first :
      (xs : List A) (x : A)
      → find_first test xs ≡ some x
      → (before : List A) × (after : List A) × (xs ≡ before ++ x ∷ after)
        × All (λ y. test y ≡ false) before
        × (test x ≡ true)
  find_first-first [] x h = cc
  find_first-first (y ∷ ys) x h = elim (Bool-cases (test y)) [
    | inl p ↦
        let same : y ≡ x = some-inj (rw p at h) in ([], ys, ap (λ z. z ∷ ys) same, tt, rw same at p)
    | inr p ↦
        let (before, after, e, earlier, holds) = find_first-first ys x (rw p at h) in
        (y ∷ before, after, ap (◌∷◌ y) e, (p, earlier), holds)
  ]

  -- `next` returns the default only if no item passes.
  pub find_first-none : (xs : List A) → find_first test xs ≡ none → All (λ y. test y ≡ false) xs
  find_first-none [] h = tt
  find_first-none (y ∷ ys) h = elim (Bool-cases (test y)) [
    | inl p ↦ absurd (none-some (rw p at h))
    | inr p ↦ (p, find_first-none ys (rw p at h))
  ]

module _ {ℓ κ μ} {A : Type ℓ} (P : A → Type κ) (Q : A → Type μ) (f : (a : A) → P a → Q a) where
  pub map-All : (xs : List A) → All P xs → All Q xs
  map-All [] h = tt
  map-All (x ∷ xs) h = (f x h.0, map-All xs h.1)

module _ {ℓ κ} {A : Type ℓ} (P : A → Type κ) where
  pub All-append : (xs ys : List A) → All P (xs ++ ys) → All P xs × All P ys
  All-append [] ys h = (tt, h)
  All-append (x ∷ xs) ys h = let (a, b) = All-append xs ys h.1 in ((h.0, a), b)

  pub append-All : (xs ys : List A) → All P xs → All P ys → All P (xs ++ ys)
  append-All [] ys h k = k
  append-All (x ∷ xs) ys h k = (h.0, append-All xs ys h.1 k)

module _ {ℓ κ μ} {A : Type ℓ} {B : Type κ} (P : B → Type μ) (f : A → List B) where
  pub All-concat_map : (xs : List A) → All P (concat_map f xs) → All (λ x. All P (f x)) xs
  All-concat_map [] h = tt
  All-concat_map (x ∷ xs) h =
      let (a, b) = All-append P (f x) (concat_map f xs) h in (a, All-concat_map xs b)

  pub concat_map-All : (xs : List A) → All (λ x. All P (f x)) xs → All P (concat_map f xs)
  concat_map-All [] h = tt
  concat_map-All (x ∷ xs) h = append-All P (f x) (concat_map f xs) h.0 (concat_map-All xs h.1)
