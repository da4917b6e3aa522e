-- ===== src/Bounded/Status/Roles.antt =====
-- `_resolve_role`: what the canonical role of a declared one is.
use cognous_agent_control_pl.Base.{
  if_true, if_false, String, true, Option, none, some, List, [], ◌∷◌, ◌≡◌, ◌⊎◌, inl, inr, refl, sym,
  ap, ◌∙◌, arith, ◌==◌, ◌&&◌, eq_iff, get, mem, starts_with, Bool-cases,
}
use cognous_agent_control_pl.Bounded.Models.{RoleMappingStatus}
use cognous_agent_control_pl.Bounded.Status.{canonical, or_empty, resolve_alias, resolve_role}

-- How a declared role stands for `c`: it is `c`, or the only alias of it in the mapping.
abbrev pub StandsFor : Option String → String → Option RoleMappingStatus → String → Type 0
StandsFor role institution_id mapping c =
    (role ≡ some c)
    ⊎ ((x : String) × (m : RoleMappingStatus) × (role ≡ some x)
        × (mapping ≡ some m)
        × (m.institution_id ≡ institution_id)
        × (or_empty (get x m.aliases) ≡ c ∷ []))

some_same : {x y : String} → some x ≡ some y → x ≡ y
some_same h = cc

none_not_some : {x : String} → none ≡ some x → ⊥
none_not_some h = cc

canonical-only :
    (x c : String) (required : List String)
    → (starts_with x "urn:" && mem x required) ≡ true
    → x ≡ c
    → (x ∷ [] ≡ c ∷ []) × (starts_with c "urn:" ≡ true) × (mem c required ≡ true)
canonical-only x c required t same = rw (sym same) (refl, ground arith, ground arith)

canonical-some :
    (xs required : List String) (c : String)
    → canonical xs required ≡ some c
    → (xs ≡ c ∷ []) × (starts_with c "urn:" ≡ true) × (mem c required ≡ true)
unfolding canonical
canonical-some [] required c h = cc
canonical-some (x ∷ []) required c h = elim (Bool-cases (starts_with x "urn:" && mem x required)) [
  | inl t ↦
      let same : x ≡ c = some_same (sym (if_true _ _ _ t) ∙ h) in canonical-only x c required t same
  | inr t ↦ absurd (none_not_some (sym (if_false _ _ _ t) ∙ h))
]
canonical-some (x ∷ y ∷ xs) required c h = cc

resolve_alias-some :
    (role : String) (required : List String) (institution_id : String)
    (o : Option RoleMappingStatus) (c : String)
    → resolve_alias role required institution_id o ≡ some c
    → (m : RoleMappingStatus) × (o ≡ some m)
      × (m.institution_id ≡ institution_id)
      × (or_empty (get role m.aliases) ≡ c ∷ [])
      × (starts_with c "urn:" ≡ true)
      × (mem c required ≡ true)
unfolding resolve_alias
resolve_alias-some role required institution_id none c h = cc
resolve_alias-some role required institution_id (some m) c h =
    elim (Bool-cases (m.institution_id == institution_id)) [
      | inl t ↦
          let (only, urn, listed) =
            canonical-some (or_empty (get role m.aliases)) required c (sym (if_true _ _ _ t) ∙ h) in
          (m, refl, (eq_iff _ _).0 t, only, urn, listed)
      | inr t ↦ absurd (none_not_some (sym (if_false _ _ _ t) ∙ h))
    ]

-- A role is resolved only to a canonical "urn:" role that is required, and only from that role itself
-- or from a label that the mapping of the institution gives this one role.
pub resolve_role-StandsFor :
    (role : Option String) (required : List String) (institution_id : String)
    (mapping : Option RoleMappingStatus) (c : String)
    → resolve_role role required institution_id mapping ≡ some c
    → (starts_with c "urn:" ≡ true)
      × (mem c required ≡ true)
      × StandsFor role institution_id mapping c
unfolding resolve_role
resolve_role-StandsFor none required institution_id mapping c h = cc
resolve_role-StandsFor (some role) required institution_id mapping c h =
    elim (Bool-cases (starts_with role "urn:")) [
      | inr t ↦
          let (m, there, of, only, urn, listed) =
            resolve_alias-some role required institution_id mapping c
              (sym (if_false _ _ _ t) ∙ h) in
          (urn, listed, inr (role, m, refl, there, of, only))
      | inl t ↦ elim (Bool-cases (mem role required)) [
        | inl u ↦
            let same : role ≡ c = some_same (sym (if_true _ _ _ u) ∙ (sym (if_true _ _ _ t) ∙ h)) in
            (
              ap (λ x. starts_with x "urn:") (sym same) ∙ t,
              ap (λ x. mem x required) (sym same) ∙ u,
              inl (ap some same),
            )
        | inr u ↦ absurd (none_not_some (sym (if_false _ _ _ u) ∙ (sym (if_true _ _ _ t) ∙ h)))
      ]
    ]
