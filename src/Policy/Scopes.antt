-- ===== src/Policy/Scopes.antt =====
-- `_active_authority_scopes`: a scope is active only through a record of this run and this actor that
-- has not expired.
use cognous_agent_control_pl.Base.{
  ℕ, ◌<◌, String, Bool, true, false, Option, none, some, List, [], ◌∷◌, ◌++◌, ◌≡◌, inl, inr, refl,
  sym, ap, ◌∙◌, arith, ◌==◌, ◌||◌, eq_iff, leb, mem, if◌then◌else◌, Bool-cases,
}
use cognous_agent_control_pl.Base.Outcome.{ok, bind-eq-ok}
use cognous_agent_control_pl.Bounded.Documents.{Platform, parse}
use cognous_agent_control_pl.Policy.Models.{Frame, ActionProposal, AuthorityRecord}
use cognous_agent_control_pl.Policy.Gate.{Canonical, expired, scopes_of, active_scopes}

ok-injective : {xs ys : List String} → ok xs ≡ ok ys → ys ≡ xs
ok-injective h = cc

mem-append : (x : String) (xs ys : List String) → mem x (xs ++ ys) ≡ (mem x xs || mem x ys)
mem-append x [] ys = refl
mem-append x (y ∷ xs) ys = ground (arith, mem-append x xs ys)

later :
    (x : String) (here rest ss : List String)
    → ok (here ++ rest) ≡ ok ss
    → mem x ss ≡ true
    → mem x here ≡ false
    → mem x rest ≡ true
later x here rest ss h m t =
    let same : ss ≡ here ++ rest = ok-injective h in
    ground (arith, mem-append x here rest, rw same at m)

module _ (p : Platform) (sha256 : Canonical → String) (a : ActionProposal) (f : Frame)
    (now : ℕ) where
  -- A record that counts in this evaluation.
  pub record IsActive (r : AuthorityRecord) : Type 0 where
    pub of_run : r.run_id ≡ a.run_id
    pub of_actor : r.actor ≡ f.actor
    pub not_expired :
        (v : String) → r.expires_at ≡ some v → (t : ℕ) × (parse p v ≡ ok t) × (now < t)

  -- A record of the list that is active and grants the scope.
  pub record Grants (x : String) (records : List AuthorityRecord) : Type 0 where
    pub granting : AuthorityRecord
    pub before : List AuthorityRecord
    pub after : List AuthorityRecord
    pub listed : records ≡ before ++ granting ∷ after
    pub is_active : IsActive granting
    pub scoped : mem x granting.scope ≡ true

  unexpired :
      (o : Option String)
      → expired p sha256 o now ≡ ok false
      → (v : String) → o ≡ some v
      → (t : ℕ) × (parse p v ≡ ok t) × (now < t)
  unfolding expired
  unexpired none h v e = cc
  unexpired (some w) h v e =
      let step = bind-eq-ok (parse p w) (λ t. ok (leb t now)) h in
      let same : w ≡ v = ground arith in
      (step.0, ap (parse p) (sym same) ∙ step.1, ground (arith, step.2))

  gone-or-not :
      (gone : Bool) (scope : List String) (x : String) (ss : List String)
      → ok (if gone then [] else scope) ≡ ok ss
      → mem x ss ≡ true
      → (gone ≡ false) × (mem x scope ≡ true)
  gone-or-not true scope x ss h m = absurd (ground arith)
  gone-or-not false scope x ss h m = (refl, rw (ok-injective h) at m)

  no_scope : (x : String) (ss : List String) → ok [] ≡ ok ss → mem x ss ≡ true → ⊥
  no_scope x [] h m = ground arith
  no_scope x (y ∷ ss) h m = cc

  scopes_of-IsActive :
      (r : AuthorityRecord) (x : String) (ss : List String)
      → scopes_of p sha256 a f now r ≡ ok ss
      → mem x ss ≡ true
      → IsActive r × (mem x r.scope ≡ true)
  unfolding scopes_of
  scopes_of-IsActive r x ss h m = elim (Bool-cases (r.run_id == a.run_id)) [
    | inr t ↦ absurd (no_scope x ss (rw t at h) m)
    | inl t ↦ elim (Bool-cases (r.actor == f.actor)) [
      | inr u ↦ absurd (no_scope x ss (rw (t, u) at h) m)
      | inl u ↦
          let step = bind-eq-ok (expired p sha256 r.expires_at now) _ (rw (t, u) at h) in
          let (kept, scoped) = gone-or-not step.0 r.scope x ss step.2 m in
          (
            record {
              of_run = (eq_iff _ _).0 t;
              of_actor = (eq_iff _ _).0 u;
              not_expired = unexpired r.expires_at (step.1 ∙ ap ok kept);
            },
            scoped,
          )
    ]
  ]

  cons_Grants :
      (x : String) (r : AuthorityRecord) (records : List AuthorityRecord)
      → Grants x records
      → Grants x (r ∷ records)
  cons_Grants x r records g = record {
    granting = g.granting;
    before = r ∷ g.before;
    after = g.after;
    listed = ap (λ rs. r ∷ rs) g.listed;
    is_active = g.is_active;
    scoped = g.scoped;
  }

  -- An active scope comes from an active record that grants it.
  pub active_scopes-Grants :
      (x : String) (records : List AuthorityRecord) (ss : List String)
      → active_scopes p sha256 a f now records ≡ ok ss
      → mem x ss ≡ true
      → Grants x records
  unfolding active_scopes
  active_scopes-Grants x [] ss h m = absurd (ground arith)
  active_scopes-Grants x (r ∷ records) ss h m =
      let first = bind-eq-ok (scopes_of p sha256 a f now r) _ h in
      let rest = bind-eq-ok (active_scopes p sha256 a f now records) _ first.2 in
      elim (Bool-cases (mem x first.0)) [
        | inl t ↦
            let (active, scoped) = scopes_of-IsActive r x first.0 first.1 t in
            record {
              granting = r;
              before = [];
              after = records;
              listed = refl;
              is_active = active;
              scoped = scoped;
            }
        | inr t ↦
            cons_Grants x r records
              (active_scopes-Grants x records rest.0 rest.1 (later x first.0 rest.0 ss rest.2 m t))
      ]
