-- ===== src/InputProfile/Evidence/Admissible.antt =====
-- What a validated evidence item establishes.
use cognous_agent_control_pl.Base.{
  ℕ, ◌≤◌, String, true, Option, none, some, List, [], ◌∷◌, ◌≡◌, inl, inr, refl, not, ltb, ◌==◌,
  eq_iff, All, Bool-cases, arith,
}
use cognous_agent_control_pl.InputProfile.Json.{Members}
use cognous_agent_control_pl.InputProfile.Verdict.{accept, after, ensure-accept, each, Codec}
use cognous_agent_control_pl.InputProfile.Verdict.Accepted.{
  not_accepted, same_accepted, IsNamed, verify_named_commitment-IsNamed,
}
use cognous_agent_control_pl.InputProfile.Obligations.{Obligation, obligation_named}
use cognous_agent_control_pl.InputProfile.Evidence.{
  EvidenceItem, admits_named, admit_sources, validate_evidence_item_fields, verify_evidence_item,
}

module _ (codec : Codec) (known : List Obligation) (now : ℕ) where
  abbrev Admits : String → String → Type 0
  Admits source oid =
      (o : Obligation) × (obligation_named oid known ≡ some o) × (source ≡ o.source_ref)

  -- An item names obligations of the record, all with its source, is not from the future, and its
  -- commitment is that of a content.
  pub record IsAdmissible (x : EvidenceItem) : Type 0 where
    pub object : Members
    pub sources : All (Admits x.source_ref) x.obligation_ids
    pub past : x.observed_at ≤ now
    pub content : IsNamed codec object "content" "content_commitment" x.content_commitment

  admits_named-Admits :
      (id source oid : String) (o : Option Obligation) {u : Unit}
      → admits_named id source oid o ≡ accept u
      → (p : Obligation) × (o ≡ some p) × (source ≡ p.source_ref)
  admits_named-Admits id source oid none h = cc
  admits_named-Admits id source oid (some o) h = elim (Bool-cases (source == o.source_ref)) [
    | inl e ↦ (o, refl, (eq_iff _ _).0 e)
    | inr e ↦ absurd (not_accepted (rw e at h))
  ]

  admit_sources-Admits :
      (id source : String) (oids : List String) {u : Unit}
      → admit_sources codec known now id source oids ≡ accept u
      → All (Admits source) oids
  unfolding admit_sources
  admit_sources-Admits id source [] h = tt
  admit_sources-Admits id source (oid ∷ oids) h = after h (λ u here later. (
    admits_named-Admits id source oid (obligation_named oid known) here,
    admit_sources-Admits id source oids later,
  ))

  validate_evidence_item_fields-ok :
      (m : Members) (content : String) (x : EvidenceItem)
      → validate_evidence_item_fields codec known now m content ≡ accept x
      → All (Admits x.source_ref) x.obligation_ids
        × (x.observed_at ≤ now)
        × (x.content_commitment ≡ content)
  unfolding validate_evidence_item_fields
  validate_evidence_item_fields-ok m content x h = after h (λ id e h. after h (λ ids e h.
      after h (λ u e h. after h (λ oids e h. after h (λ u e h. after h (λ source e h.
        after h (λ u admitted h. after h (λ observed e h. after h (λ u past h. after h (λ state e h.
          after h (λ provenance e h. after h (λ provenance_source e h. after h (λ u e h.
            rw (same_accepted h) (
              admit_sources-Admits id source oids admitted,
              not_late now observed (ensure-accept _ _ _ past),
              refl,
            ))))))))))))))
    where
      not_late : (a b : ℕ) → not (ltb a b) ≡ true → b ≤ a
      not_late a b h = ground arith

  verify_evidence_item-IsAdmissible :
      (m : Members) (x : EvidenceItem)
      → verify_evidence_item codec known now m ≡ accept x
      → IsAdmissible x
  unfolding verify_evidence_item
  verify_evidence_item-IsAdmissible m x h = after h (λ content committed h. after h (λ u e h.
      after h (λ classified e h. after h (λ u e h.
        let (sources, past, same) = validate_evidence_item_fields-ok m content x h in
        record {
          object = m;
          sources = sources;
          past = past;
          content = rw same (verify_named_commitment-IsNamed codec m _ _ _ committed);
        }))))

  pub each-IsAdmissible :
      (ms : List Members) (xs : List EvidenceItem)
      → each (verify_evidence_item codec known now) ms ≡ accept xs
      → All IsAdmissible xs
  unfolding each
  each-IsAdmissible [] xs h = let same = same_accepted h in rw same tt
  each-IsAdmissible (m ∷ ms) xs h = after h (λ x here h. after h (λ ys later h.
      rw (same_accepted h)
        (verify_evidence_item-IsAdmissible m x here, each-IsAdmissible ms ys later)))
