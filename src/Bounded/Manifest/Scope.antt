-- ===== src/Bounded/Manifest/Scope.antt =====
-- `_matching_permission` returns the first permission that covers the whole operation.
use cognous_agent_control_pl.Base.{
  ◌≤◌, Bool, true, false, Option, none, some, List, ◌∷◌, ◌++◌, ◌≡◌, refl, arith, mem, subset,
  eq_iff, find_first, find_first-first, find_first-none, map-All, Option-cases, inl, inr, All,
}
use cognous_agent_control_pl.Bounded.Models.{RuntimeProposal}
use cognous_agent_control_pl.Bounded.Documents.{Manifest, ManifestAction, Permission}
use cognous_agent_control_pl.Bounded.Manifest.{find_action, covers, covering, matching_permission}

-- The permission is for the action, and its targets, scopes, amount, unit and count admit the
-- proposal.
pub record IsCovered (a : ManifestAction) (q : RuntimeProposal) (permission : Permission)
    : Type 0 where
  pub action : permission.action ≡ a.action_name
  pub target : mem q.target permission.targets ≡ true
  pub scopes : subset q.requested_permissions permission.data_scopes ≡ true
  pub amount : q.amount ≤ permission.max_amount
  pub unit : q.unit ≡ permission.unit
  pub effects : q.effects ≤ permission.max_effects

contradiction : {b : Bool} → b ≡ true → b ≡ false → ⊥
contradiction h k = cc

same_action : {o : Option ManifestAction} {a b : ManifestAction} → o ≡ some a → o ≡ some b → a ≡ b
same_action h k = cc

none_found : {o : Option ManifestAction} {a : ManifestAction} → o ≡ none → o ≡ some a → ⊥
none_found h k = cc

pub covers-IsCovered :
    (a : ManifestAction) (q : RuntimeProposal) (x : Permission)
    → covers a q x ≡ true
    → IsCovered a q x
unfolding covers
covers-IsCovered a q x h = ground (arith, eq_iff x.action a.action_name, eq_iff q.unit x.unit)

IsCovered-covers :
    (a : ManifestAction) (q : RuntimeProposal) (x : Permission)
    → IsCovered a q x
    → covers a q x ≡ true
unfolding covers
IsCovered-covers a q x h = ground (arith, eq_iff x.action a.action_name, eq_iff q.unit x.unit)

-- What is returned covers the proposal for its action, and no permission listed before it does.
abbrev pub Covering : Manifest → List Permission → RuntimeProposal → Option Permission → Type 0
Covering m xs q (some x) =
    (a : ManifestAction) × (before : List Permission) × (after : List Permission) × (find_action m
        q.action_id
      ≡ some a)
    × (xs ≡ before ++ x ∷ after)
    × IsCovered a q x
    × All (λ y. ¬ IsCovered a q y) before
Covering m xs q none =
    (a : ManifestAction) → find_action m q.action_id ≡ some a → All (λ y. ¬ IsCovered a q y) xs

uncovered :
    (a : ManifestAction) (q : RuntimeProposal) (x : Permission)
    → covers a q x ≡ false
    → ¬ IsCovered a q x
uncovered a q x h c = absurd (contradiction (IsCovered-covers a q x c) h)

Covering-first :
    (m : Manifest) (a : ManifestAction) (xs : List Permission) (q : RuntimeProposal)
    (r : Option Permission)
    → find_action m q.action_id ≡ some a
    → find_first (covers a q) xs ≡ r
    → Covering m xs q r
Covering-first m a xs q (some x) found h =
    let (before, after, e, earlier, holds) = find_first-first (covers a q) xs x h in
    (
      a,
      before,
      after,
      found,
      e,
      covers-IsCovered a q x holds,
      map-All _ _ (uncovered a q) before earlier,
    )
Covering-first m a xs q none found h = λ b same.
    let e : a ≡ b = same_action found same in
    rw e at (map-All _ _ (uncovered a q) xs (find_first-none (covers a q) xs h))

-- The permission that is used covers the action, target, scopes, amount, unit and count of the
-- proposal, and is the first that does; none is used only if none covers it.
pub matching_permission-first :
    (m : Manifest) (xs : List Permission) (q : RuntimeProposal)
    → Covering m xs q (matching_permission m xs q)
unfolding matching_permission
matching_permission-first m xs q = elim (Option-cases (find_action m q.action_id)) [
  | inl h ↦ rw (h, covering) (λ a found. absurd (none_found h found))
  | inr (a, h) ↦ rw (h, covering) (Covering-first m a xs q _ h refl)
]
