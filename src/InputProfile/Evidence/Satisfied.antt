-- ===== src/InputProfile/Evidence/Satisfied.antt =====
-- When an obligation is resolved as valid, and what a validated item establishes.
use cognous_agent_control_pl.Base.{
  unequal, ℕ, ◌+◌, ◌*◌, ◌≤◌, String, Bool, true, false, List, [], ◌∷◌, ◌≡◌, ◌↔◌, refl, ap, ◌∙◌,
  ◌||◌, not, ltb, ltb→le, any, ◌==◌, eq_iff, All, map-All, arith, if◌then◌else◌,
}
use cognous_agent_control_pl.Bounded.Documents.{second}
use cognous_agent_control_pl.InputProfile.Obligations.{Obligation}
use cognous_agent_control_pl.InputProfile.Evidence.{
  DeclaredState, EvidenceItem, EvidenceStanding, is_conflict, is_unknown, candidates, is_stale,
  classify, evidence_status,
}

module _ {A : Type 0} (f : A → Bool) where
  any-All : (xs : List A) → any f xs ≡ false → All (λ x. f x ≡ false) xs
  any-All [] h = tt
  any-All (x ∷ xs) h = (ground arith, any-All xs (ground arith))

  All-any : (xs : List A) → All (λ x. f x ≡ false) xs → any f xs ≡ false
  All-any [] h = refl
  All-any (x ∷ xs) h = ground (arith, h.0, All-any xs h.1)

is_current :
    (s : DeclaredState) → is_conflict s ≡ false → is_unknown s ≡ false → s ≡ DeclaredState.current
is_current DeclaredState.current h k = refl
is_current DeclaredState.unknown h k = cc
is_current DeclaredState.conflict h k = cc

not_conflict : (s : DeclaredState) → s ≡ DeclaredState.current → is_conflict s ≡ false
not_conflict s h = rw h refl

not_unknown : (s : DeclaredState) → s ≡ DeclaredState.current → is_unknown s ≡ false
not_unknown s h = rw h refl

module _ {A : Type 0} (P Q : A → Type 0) where
  All-and : (xs : List A) → All P xs → All Q xs → All (λ x. P x × Q x) xs
  All-and [] h k = tt
  All-and (x ∷ xs) h k = ((h.0, k.0), All-and xs h.1 k.1)

abbrev IsCurrent : EvidenceItem → Type 0
IsCurrent x = x.declared_state ≡ DeclaredState.current

abbrev IsRecent : ℕ → ℕ → EvidenceItem → Type 0
IsRecent now max_age x = now ≤ x.observed_at + max_age * second

abbrev Commits : String → EvidenceItem → Type 0
Commits c x = x.content_commitment ≡ c

-- An obligation has evidence, and each item of it is declared current, not too old, and commits to
-- the content that all others commit to.
pub record IsSatisfied (now : ℕ) (max_age : ℕ) (xs : List EvidenceItem) : Type 0 where
  pub first : EvidenceItem
  pub rest : List EvidenceItem
  pub found : xs ≡ first ∷ rest
  pub current : All IsCurrent (first ∷ rest)
  pub recent : All (IsRecent now max_age) (first ∷ rest)
  pub same_content : All (Commits first.content_commitment) rest

not_late : (a b : ℕ) → a ≤ b → ltb b a ≡ false
not_late a b h = ground arith

equal : (s t : String) → s ≡ t → not (s == t) ≡ false
equal s t h = ground (arith, (eq_iff s t).1 h)

module _ (now max_age : ℕ) (x : EvidenceItem) (xs : List EvidenceItem) where
  classify-valid :
      (c d u o : Bool)
      → (if c || d
          then EvidenceStanding.conflicting
          else if u
          then EvidenceStanding.unknown
          else if o
          then EvidenceStanding.stale
          else EvidenceStanding.valid)
        ≡ EvidenceStanding.valid
      → (c ≡ false) × (d ≡ false) × (u ≡ false) × (o ≡ false)
  classify-valid true d u o h = cc
  classify-valid false true u o h = cc
  classify-valid false false true o h = cc
  classify-valid false false false true h = cc
  classify-valid false false false false h = (refl, refl, refl, refl)

  classify-IsSatisfied :
      classify now max_age (x ∷ xs) ≡ EvidenceStanding.valid → IsSatisfied now max_age (x ∷ xs)
  unfolding classify
  classify-IsSatisfied h =
      let (calm, same, known, fresh) = classify-valid _ _ _ _ h in
      record {
        first = x;
        rest = xs;
        found = refl;
        current =
            map-All
              (λ y. (is_conflict y.declared_state ≡ false) × (is_unknown y.declared_state ≡ false))
              IsCurrent (λ y e. is_current y.declared_state e.0 e.1) (x ∷ xs)
              (All-and _ _ (x ∷ xs) (any-All (λ y. is_conflict y.declared_state) (x ∷ xs) calm)
                (any-All (λ y. is_unknown y.declared_state) (x ∷ xs) known));
        recent =
            map-All (λ y. is_stale now max_age y ≡ false) (IsRecent now max_age)
              (λ y e. ltb→le _ _ e) (x ∷ xs) (any-All (is_stale now max_age) (x ∷ xs) fresh);
        same_content =
            map-All (λ y. not (y.content_commitment == x.content_commitment) ≡ false)
              (Commits x.content_commitment) (λ y e. unequal _ _ e) xs (any-All _ xs same);
      }

  chosen :
      (c d u o : Bool)
      → c ≡ false
      → d ≡ false
      → u ≡ false
      → o ≡ false
      → (if c || d
          then EvidenceStanding.conflicting
          else if u
          then EvidenceStanding.unknown
          else if o
          then EvidenceStanding.stale
          else EvidenceStanding.valid)
        ≡ EvidenceStanding.valid
  chosen false false false false hc hd hu ho = refl
  chosen true d u o hc hd hu ho = cc
  chosen false true u o hc hd hu ho = cc
  chosen false false true o hc hd hu ho = cc
  chosen false false false true hc hd hu ho = cc

  IsSatisfied-classify :
      All IsCurrent (x ∷ xs)
      → All (IsRecent now max_age) (x ∷ xs)
      → All (Commits x.content_commitment) xs
      → classify now max_age (x ∷ xs) ≡ EvidenceStanding.valid
  unfolding classify
  IsSatisfied-classify current recent same =
      chosen _ _ _ _
        (All-any (λ y. is_conflict y.declared_state) (x ∷ xs)
          (map-All IsCurrent (λ y. is_conflict y.declared_state ≡ false)
            (λ y e. not_conflict y.declared_state e) (x ∷ xs) current))
        (All-any (λ y. not (y.content_commitment == x.content_commitment)) xs
          (map-All (Commits x.content_commitment)
            (λ y. not (y.content_commitment == x.content_commitment) ≡ false) (λ y e. equal _ _ e)
            xs same))
        (All-any (λ y. is_unknown y.declared_state) (x ∷ xs)
          (map-All IsCurrent (λ y. is_unknown y.declared_state ≡ false)
            (λ y e. not_unknown y.declared_state e) (x ∷ xs) current))
        (All-any (is_stale now max_age) (x ∷ xs) (
          map-All (IsRecent now max_age) (λ y. is_stale now max_age y ≡ false)
            (λ y e. not_late _ _ e) (x ∷ xs) recent))

module _ (now : ℕ) where
  classify_iff :
      (max_age : ℕ) (xs : List EvidenceItem)
      → (classify now max_age xs ≡ EvidenceStanding.valid) ↔ IsSatisfied now max_age xs
  unfolding classify
  classify_iff max_age [] = (λ h. absurd (missing_is_not_valid h), λ s. absurd (nothing s.found))
    where
      missing_is_not_valid : EvidenceStanding.missing ≡ EvidenceStanding.valid → ⊥
      missing_is_not_valid h = cc

      nothing : {y : EvidenceItem} {ys : List EvidenceItem} → [] ≡ y ∷ ys → ⊥
      nothing h = cc
  classify_iff max_age (x ∷ xs) = (
    classify-IsSatisfied now max_age x xs,
    λ s.
        ap (classify now max_age) s.found
        ∙ IsSatisfied-classify now max_age s.first s.rest s.current s.recent s.same_content,
  )

  -- Evidence resolves an obligation as valid exactly if there is some, and all that names the
  -- obligation is declared current, is not older than the obligation allows, and commits to one
  -- content.
  pub evidence_status_iff :
      (items : List EvidenceItem) (o : Obligation)
      → (evidence_status now items o ≡ EvidenceStanding.valid)
        ↔ IsSatisfied now o.max_age_seconds (candidates o.obligation_id items)
  unfolding evidence_status
  evidence_status_iff items o = classify_iff o.max_age_seconds (candidates o.obligation_id items)
