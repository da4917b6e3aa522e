-- ===== src/Bounded/Resolve/Reasons.antt =====
-- `_resolve`: where it returns no binding it returns a reason.
use cognous_agent_control_pl.Base.{
  ℕ, String, Option, none, some, List, [], ◌∷◌, ◌++◌, ◌≡◌, ◌≢◌, arith, sorted_set, sorted_set-nil,
  append-eq-nil,
}
use cognous_agent_control_pl.Base.Outcome.{Result, ok, raise, bind, bind-eq-ok, failing}
use cognous_agent_control_pl.Bounded.Models.{RuntimeProposal, AuthorizationBinding}
use cognous_agent_control_pl.Bounded.Documents.{Platform, AuthorityContext, Grant, Resolver}
use cognous_agent_control_pl.Bounded.World.{Config}
use cognous_agent_control_pl.Bounded.Manifest.{manifest_mismatches}
use cognous_agent_control_pl.Bounded.Resolve.{
  prior_checks, authority_checks, conclude, resolve_grant, resolve_context, resolve,
}
use cognous_agent_control_pl.Bounded.Context.{text_or_empty}

module _ (p : Platform) (cfg : Config) (r : Resolver) (now : ℕ) (q : RuntimeProposal) where
  never_nil : (x : String) (xs : List String) → sorted_set (x ∷ xs) ≢ []
  never_nil x xs h = absurd (ground (arith, sorted_set-nil (x ∷ xs) h))

  snoc_never_nil : (xs : List String) (x : String) → sorted_set (xs ++ x ∷ []) ≢ []
  snoc_never_nil xs x h =
      absurd (ground (arith, (append-eq-nil xs (x ∷ []) (sorted_set-nil (xs ++ x ∷ []) h)).1))

  bound-not-none :
      (m : Result AuthorizationBinding) (rs : List String)
      → bind {B = List String × Option AuthorizationBinding} m (λ b. ok ([], some b))
        ≡ ok (rs, none)
      → ⊥
  bound-not-none (ok b) rs h = ground arith
  bound-not-none (raise e) rs h = ground arith

  conclude-none :
      (c : AuthorityContext) (g : Grant) (reasons rs : List String)
      → conclude p cfg r now q c g reasons ≡ ok (rs, none)
      → rs ≢ []
  unfolding conclude
  conclude-none c g (x ∷ reasons) rs h e = never_nil x reasons (cc)
  conclude-none c g [] rs h e = bound-not-none _ rs h

  resolve_grant-none :
      (c : AuthorityContext) (reasons rs : List String) (o : Option Grant)
      → resolve_grant p cfg r now q c reasons o ≡ ok (rs, none)
      → rs ≢ []
  unfolding resolve_grant
  resolve_grant-none c reasons rs none h e = snoc_never_nil reasons "issued_grant_missing" (cc)
  resolve_grant-none c reasons rs (some g) h e =
      let step = bind-eq-ok (failing (authority_checks p cfg r now q c g)) _ h in
      conclude-none c g _ rs step.2 e

  resolve_context-none :
      (reasons rs : List String) (o : Option AuthorityContext)
      → resolve_context p cfg r now q reasons o ≡ ok (rs, none)
      → rs ≢ []
  unfolding resolve_context
  resolve_context-none reasons rs none h e = snoc_never_nil reasons "authority_context_missing" (cc)
  resolve_context-none reasons rs (some c) h e =
      let step = bind-eq-ok (failing (prior_checks p cfg r now q c)) _ h in
      resolve_grant-none c _ rs c.grant step.2 e

  -- No binding comes with at least one reason.
  pub resolve-reasons : (rs : List String) → resolve p cfg r now q ≡ ok (rs, none) → rs ≢ []
  unfolding resolve
  resolve-reasons rs h =
      let step = bind-eq-ok (manifest_mismatches p cfg.manifest q now) _ h in
      resolve_context-none step.0 rs (r.authority_context (text_or_empty q.authority_context_ref))
        step.2
