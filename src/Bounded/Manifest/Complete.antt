-- ===== src/Bounded/Manifest/Complete.antt =====
-- `_manifest_mismatches`: a proposal that is what the manifest declares has no mismatch, and so the
-- two conditions are one.
use cognous_agent_control_pl.Base.{
  ℕ, ◌≤◌, String, Bool, true, false, Option, none, some, List, [], ◌∷◌, ◌≡◌, ◌↔◌, ◌⊎◌, inl, inr,
  refl, ap, arith, not, ◌&&◌, ◌==◌, eq_iff, opt_eq_iff, mem, mem-any, mem-subset, keys, sorted_set,
  sorted_set-nil, All, All-append, append-All, Option-cases, Bool-cases,
}
use cognous_agent_control_pl.Base.Outcome.{
  Result, ok, raise, bind, Passes, failing-Passes, Passes-failing,
}
use cognous_agent_control_pl.Bounded.Models.{RuntimeProposal}
use cognous_agent_control_pl.Bounded.Documents.{
  Platform, Manifest, ManifestAction, Tool, TargetPolicy, PayloadPolicy, EffectLimits,
  DeclaredAuthority,
}
use cognous_agent_control_pl.Bounded.Manifest.{
  find_action, adapter_differs, target_outside, payload_checks, limit_checks, profile_checks,
  starts_after, ended_by, document_checks, action_checks, mismatch_checks, manifest_mismatches,
  check,
}
use cognous_agent_control_pl.Bounded.Manifest.Declared.{
  PayloadFits, LimitsHold, ProfileMatches, HasStarted, HasNotEnded, IsDeclared,
  IsDeclared-of_Passes,
}

ok_not : (b : Bool) → b ≡ true → ok (not b) ≡ ok false
ok_not b h = rw h

ok_false : (b : Bool) → b ≡ false → ok b ≡ ok false
ok_false b h = ap ok h

not_same : {b : Bool} → b ≡ false → b ≡ true → ⊥
not_same h k = cc

true_passes : ok true ≡ ok false → ⊥
true_passes h = cc

adapter_agrees :
    (o : Option Tool) (t : Tool) (adapter_id : String)
    → o ≡ some t
    → t.adapter_id ≡ some adapter_id
    → adapter_differs o adapter_id ≡ false
unfolding adapter_differs
adapter_agrees o t adapter_id h k = rw h (rw ((opt_eq_iff t.adapter_id (some adapter_id)).1 k))

target_inside :
    (o : Option TargetPolicy) (t : TargetPolicy) (target : String)
    → o ≡ some t
    → t.allow_any_target ≡ false
    → mem target t.allowed_targets ≡ true
    → target_outside o target ≡ false
unfolding target_outside
target_inside o t target h k m = rw h (rw (k, m))

undeclared_no : (a b : Bool) → (a ≡ true) ⊎ (b ≡ true) → (not a && not b) ≡ false
undeclared_no a b h = ground arith

payload-Passes :
    (o : Option PayloadPolicy) (ks : List String)
    → PayloadFits o ks
    → All Passes (payload_checks o ks)
unfolding payload_checks
payload-Passes none ks h = absurd h
payload-Passes (some q) ks (required, forbidden, declared) = (
  ok_not _ (mem-subset q.required_fields ks required),
  (
    ok_false _ (mem-any (λ k. mem k q.forbidden_fields) ks forbidden),
    (
      ok_false _ (
          mem-any (λ k. not (mem k q.required_fields) && not (mem k q.optional_fields)) ks
            (λ k m. undeclared_no _ _ (declared k m))),
      tt,
    ),
  ),
)

limits_pass :
    (o : Option EffectLimits) (q : RuntimeProposal) → LimitsHold o q → All Passes (limit_checks o q)
unfolding limit_checks
limits_pass none q h = tt
limits_pass (some l) q (count, amount, unit) = (
  ground arith,
  (
    elim (Option-cases l.max_amount) [
      | inl e ↦ rw e
      | inr (n, e) ↦ let fits : q.amount ≤ n = amount n e in rw e (ground arith)
    ],
    (
      elim (Option-cases l.unit) [
        | inl e ↦ rw e
        | inr (u, e) ↦ let same : q.unit ≡ u = unit u e in rw e (ground (arith, eq_iff q.unit u))
      ],
      tt,
    ),
  ),
)

profile-Passes :
    (o : Option DeclaredAuthority) (q : RuntimeProposal)
    → ProfileMatches o q
    → All Passes (profile_checks o q)
unfolding profile_checks
profile-Passes none q h = tt
profile-Passes (some a) q (ref, requirement) =
    (ok_not _ ((opt_eq_iff _ _).1 ref), (ok_not _ ((opt_eq_iff _ _).1 requirement), tt))

module _ (p : Platform) (now : ℕ) where
  started_passes : (o : Option String) → HasStarted p o now → starts_after p o now ≡ ok false
  unfolding starts_after
  started_passes none h = refl
  started_passes (some v) h = elim (Bool-cases (v == "")) [
    | inl e ↦ rw e
    | inr e ↦
        let (t, r, early) = h v refl (λ same. not_same e ((eq_iff v "").1 same)) in
        rw (e, r) (ground arith)
  ]

  not_ended_passes : (o : Option String) → HasNotEnded p o now → ended_by p o now ≡ ok false
  unfolding ended_by
  not_ended_passes none h = refl
  not_ended_passes (some v) h = elim (Bool-cases (v == "")) [
    | inl e ↦ rw e
    | inr e ↦
        let (t, r, early) = h v refl (λ same. not_same e ((eq_iff v "").1 same)) in
        rw (e, r) (ground arith)
  ]

  document-Passes :
      (m : Manifest) (q : RuntimeProposal) (a : ManifestAction)
      → IsDeclared p m q now a
      → All Passes (document_checks p m q)
  unfolding document_checks
  document-Passes m q a d = (
    ok_not _ ((eq_iff _ _).1 d.proposal_version),
    (
      ok_not _ ((opt_eq_iff _ _).1 d.manifest_version),
      (
        ok_not _ ((opt_eq_iff _ _).1 d.manifest_id),
        (
          ok_not _ ((eq_iff _ _).1 d.manifest_digest),
          (ok_not _ ((eq_iff _ _).1 d.payload_commitment), tt),
        ),
      ),
    ),
  )

  action-Passes :
      (m : Manifest) (q : RuntimeProposal) (a : ManifestAction)
      → IsDeclared p m q now a
      → All Passes (action_checks p m a q now)
  unfolding action_checks
  action-Passes m q a d = (
    ok_false _ (adapter_agrees _ d.adapter.0 _ d.adapter.1 d.adapter.2),
    (
      ok_false _ (target_inside _ d.target.0 _ d.target.1 d.target.2 d.target.3),
      append-All Passes (payload_checks a.payload_policy (keys q.payload)) _
          (payload-Passes _ _ d.payload)
          (append-All Passes (limit_checks a.effect_limits q) _ (limits_pass _ q d.limits) (
            ok_not _ (mem-subset _ _ d.scopes),
            append-All Passes (profile_checks a.authority_context q) _
                (profile-Passes _ q d.profile)
                (started_passes _ d.started, (not_ended_passes _ d.not_ended, tt)),
          )),
    ),
  )

  sorted_nil : (r : Result (List String)) → bind r (λ rs. ok (sorted_set rs)) ≡ ok [] → r ≡ ok []
  sorted_nil (ok rs) h = ap ok (sorted_set-nil rs (cc))
  sorted_nil (raise e) h = cc

  unknown_action :
      (m : Manifest) (q : RuntimeProposal) → ¬ All Passes (mismatch_checks p m none q now)
  unfolding mismatch_checks
  unknown_action m q h = absurd (
      true_passes
        (All-append Passes (document_checks p m q) (check true "unknown_action" ∷ []) h).1.0)

  none-Passes :
      (m : Manifest) (q : RuntimeProposal)
      → manifest_mismatches p m q now ≡ ok []
      → All Passes (mismatch_checks p m (find_action m q.action_id) q now)
  unfolding manifest_mismatches
  none-Passes m q h = failing-Passes _ (sorted_nil _ h)

  sound :
      (m : Manifest) (q : RuntimeProposal) (o : Option ManifestAction)
      → find_action m q.action_id ≡ o
      → All Passes (mismatch_checks p m o q now)
      → (a : ManifestAction) × (find_action m q.action_id ≡ some a) × IsDeclared p m q now a
  sound m q none found h = absurd (unknown_action m q h)
  sound m q (some a) found h =
      let (documents, actions) =
        All-append Passes (document_checks p m q) (action_checks p m a q now)
          (unfold mismatch_checks in h) in
      (a, found, IsDeclared-of_Passes p now m q a documents actions)

  complete :
      (m : Manifest) (q : RuntimeProposal) (a : ManifestAction)
      → find_action m q.action_id ≡ some a
      → IsDeclared p m q now a
      → manifest_mismatches p m q now ≡ ok []
  unfolding manifest_mismatches
  complete m q a found d =
      let passes =
        append-All Passes (document_checks p m q) (action_checks p m a q now)
          (document-Passes m q a d) (action-Passes m q a d) in
      rw (found, mismatch_checks, Passes-failing _ passes) (unfold sorted_set in refl)

  -- There is no mismatch exactly if the manifest has the action and the proposal agrees with all
  -- that the manifest and the action declare, and the times of the proposal can be read.
  pub manifest_mismatches_iff :
      (m : Manifest) (q : RuntimeProposal)
      → (manifest_mismatches p m q now ≡ ok [])
        ↔ ((a : ManifestAction) × (find_action m q.action_id ≡ some a) × IsDeclared p m q now a)
  manifest_mismatches_iff m q =
      (λ h. sound m q _ refl (none-Passes m q h), λ h. complete m q h.0 h.1 h.2)
