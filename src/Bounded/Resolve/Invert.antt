-- ===== src/Bounded/Resolve/Invert.antt =====
-- `_resolve`: what a call has found when it returns a binding, and that it returns a binding
-- exactly when it returns no reason.
use cognous_agent_control_pl.Base.{
  ℕ, String, Option, none, some, List, [], ◌∷◌, ◌++◌, ◌≡◌, refl, sym, ap, ◌∙◌, arith, All,
  append-eq-nil,
}
use cognous_agent_control_pl.Base.Outcome.{
  ok, bind, bind-eq-ok, Check, Passes, failing, failing-Passes,
}
use cognous_agent_control_pl.Bounded.Models.{RuntimeProposal, AuthorizationBinding}
use cognous_agent_control_pl.Bounded.Documents.{
  Platform, AuthorityContext, Grant, Permission, ManifestAction, Resolver,
}
use cognous_agent_control_pl.Bounded.World.{Config}
use cognous_agent_control_pl.Bounded.Manifest.{
  find_action, manifest_mismatches, matching_permission,
}
use cognous_agent_control_pl.Bounded.Resolve.{
  prior_checks, authority_checks, bound, bind_authority, conclude, resolve_grant, resolve_context,
  resolve,
}
use cognous_agent_control_pl.Bounded.Context.{text_or_empty}

module _ (p : Platform) (cfg : Config) (r : Resolver) (now : ℕ) (q : RuntimeProposal) where
  -- The documents that were found, the tests that were false, and the binding that they give.
  pub record IsBound (b : AuthorizationBinding) : Type 0 where
    pub context : AuthorityContext
    pub grant : Grant
    pub needed : Permission
    pub granted : Permission
    pub action : ManifestAction
    pub no_mismatch : manifest_mismatches p cfg.manifest q now ≡ ok []
    pub context_found : r.authority_context (text_or_empty q.authority_context_ref) ≡ some context
    pub grant_found : context.grant ≡ some grant
    pub prior : All Passes (prior_checks p cfg r now q context)
    pub authority : All Passes (authority_checks p cfg r now q context grant)
    pub needed_found :
        matching_permission cfg.manifest context.requirement.permissions q ≡ some needed
    pub granted_found : matching_permission cfg.manifest grant.permissions q ≡ some granted
    pub action_found : find_action cfg.manifest q.action_id ≡ some action
    pub binding : b ≡ bound p cfg r now q context grant needed granted action

  bind_authority-ok :
      (c : AuthorityContext) (g : Grant) (n h : Option Permission) (a : Option ManifestAction)
      (b : AuthorizationBinding)
      → bind_authority p cfg r now q c g n h a ≡ ok b
      → (needed : Permission) × (granted : Permission) × (action : ManifestAction) × (n
          ≡ some needed)
        × (h ≡ some granted)
        × (a ≡ some action)
        × (b ≡ bound p cfg r now q c g needed granted action)
  unfolding bind_authority
  bind_authority-ok c g (some n) (some h) (some a) b e = (n, h, a, refl, refl, refl, cc)
  bind_authority-ok c g (some n) (some h) none b e = cc
  bind_authority-ok c g (some n) none a b e = cc
  bind_authority-ok c g none h a b e = cc

  conclude-ok :
      (c : AuthorityContext) (g : Grant) (reasons rs : List String) (b : AuthorizationBinding)
      → conclude p cfg r now q c g reasons ≡ ok (rs, some b)
      → (reasons ≡ [])
        × (rs ≡ [])
        × (bind_authority p cfg r now q c g
              (matching_permission cfg.manifest c.requirement.permissions q)
              (matching_permission cfg.manifest g.permissions q)
              (find_action cfg.manifest q.action_id)
            ≡ ok b)
  unfolding conclude
  conclude-ok c g (x ∷ reasons) rs b h = cc
  conclude-ok c g [] rs b h = let (b', e, same) = bind-eq-ok _ _ h in (refl, cc, e ∙ cc)

  -- What follows once the context is found, from the tests and the binding.
  IsBound-of :
      (c : AuthorityContext) (g : Grant) (b : AuthorizationBinding)
      → manifest_mismatches p cfg.manifest q now ≡ ok []
      → r.authority_context (text_or_empty q.authority_context_ref) ≡ some c
      → All Passes (prior_checks p cfg r now q c)
      → c.grant ≡ some g
      → All Passes (authority_checks p cfg r now q c g)
      → bind_authority p cfg r now q c g
          (matching_permission cfg.manifest c.requirement.permissions q)
          (matching_permission cfg.manifest g.permissions q)
          (find_action cfg.manifest q.action_id)
        ≡ ok b
      → IsBound b
  IsBound-of c g b declared found prior has_grant passes built =
      let parts = bind_authority-ok c g _ _ _ b built in
      record {
        context = c;
        grant = g;
        needed = parts.0;
        granted = parts.1;
        action = parts.2;
        no_mismatch = declared;
        context_found = found;
        grant_found = has_grant;
        prior = prior;
        authority = passes;
        needed_found = parts.3;
        granted_found = parts.4;
        action_found = parts.5;
        binding = parts.6;
      }

  -- Tests after which nothing is left to note.
  after_checks :
      (c : AuthorityContext) (g : Grant) (cs : List Check) (reasons rs : List String)
      (b : AuthorizationBinding)
      → bind (failing cs) (λ more. conclude p cfg r now q c g (reasons ++ more)) ≡ ok (rs, some b)
      → (rs ≡ [])
        × (reasons ≡ [])
        × All Passes cs
        × (bind_authority p cfg r now q c g
              (matching_permission cfg.manifest c.requirement.permissions q)
              (matching_permission cfg.manifest g.permissions q)
              (find_action cfg.manifest q.action_id)
            ≡ ok b)
  after_checks c g cs reasons rs b h =
      let step = bind-eq-ok (failing cs) _ h in
      let end = conclude-ok c g _ rs b step.2 in
      let last = append-eq-nil reasons step.0 end.0 in
      (end.1, last.0, failing-Passes cs (step.1 ∙ ap ok last.1), end.2)

  resolve_grant-ok :
      (c : AuthorityContext) (reasons rs : List String) (o : Option Grant)
      (b : AuthorizationBinding)
      → resolve_grant p cfg r now q c reasons o ≡ ok (rs, some b)
      → (rs ≡ [])
        × (reasons ≡ [])
        × (g : Grant) × (o ≡ some g)
        × All Passes (authority_checks p cfg r now q c g)
        × (bind_authority p cfg r now q c g
              (matching_permission cfg.manifest c.requirement.permissions q)
              (matching_permission cfg.manifest g.permissions q)
              (find_action cfg.manifest q.action_id)
            ≡ ok b)
  unfolding resolve_grant
  resolve_grant-ok c reasons rs none b h = cc
  resolve_grant-ok c reasons rs (some g) b h =
      let found = after_checks c g (authority_checks p cfg r now q c g) reasons rs b h in
      (found.0, found.1, g, refl, found.2, found.3)

  after_context :
      (c : AuthorityContext) (cs : List Check) (reasons rs : List String) (b : AuthorizationBinding)
      → bind (failing cs) (λ more. resolve_grant p cfg r now q c (reasons ++ more) c.grant)
        ≡ ok (rs, some b)
      → (rs ≡ [])
        × (reasons ≡ [])
        × All Passes cs
        × (g : Grant) × (c.grant ≡ some g)
        × All Passes (authority_checks p cfg r now q c g)
        × (bind_authority p cfg r now q c g
              (matching_permission cfg.manifest c.requirement.permissions q)
              (matching_permission cfg.manifest g.permissions q)
              (find_action cfg.manifest q.action_id)
            ≡ ok b)
  after_context c cs reasons rs b h =
      let step = bind-eq-ok (failing cs) _ h in
      let end = resolve_grant-ok c (reasons ++ step.0) rs c.grant b step.2 in
      let last = append-eq-nil reasons step.0 end.1 in
      (end.0, last.0, failing-Passes cs (step.1 ∙ ap ok last.1), end.2, end.3, end.4, end.5)

  found_context :
      (c : AuthorityContext) (reasons rs : List String) (b : AuthorizationBinding)
      → manifest_mismatches p cfg.manifest q now ≡ ok reasons
      → r.authority_context (text_or_empty q.authority_context_ref) ≡ some c
      → bind
          (failing (prior_checks p cfg r now q c))
          (λ more. resolve_grant p cfg r now q c (reasons ++ more) c.grant)
        ≡ ok (rs, some b)
      → (rs ≡ []) × IsBound b
  found_context c reasons rs b declared found h =
      let end = after_context c (prior_checks p cfg r now q c) reasons rs b h in
      (end.0, IsBound-of c end.3 b (declared ∙ ap ok end.1) found end.2 end.4 end.5 end.6)

  resolve_context-some :
      (c : AuthorityContext) (reasons : List String)
      → resolve_context p cfg r now q reasons (some c)
        ≡ bind
            (failing (prior_checks p cfg r now q c))
            (λ more. resolve_grant p cfg r now q c (reasons ++ more) c.grant)
  unfolding resolve_context
  resolve_context-some c reasons = refl

  resolve_context-none_ok :
      (reasons rs : List String) (b : AuthorizationBinding)
      → resolve_context p cfg r now q reasons none ≡ ok (rs, some b)
      → ⊥
  unfolding resolve_context
  resolve_context-none_ok reasons rs b h = ground arith

  resolve_context-ok :
      (reasons rs : List String) (o : Option AuthorityContext) (b : AuthorizationBinding)
      → manifest_mismatches p cfg.manifest q now ≡ ok reasons
      → r.authority_context (text_or_empty q.authority_context_ref) ≡ o
      → resolve_context p cfg r now q reasons o ≡ ok (rs, some b)
      → (rs ≡ []) × IsBound b
  resolve_context-ok reasons rs none b declared found h =
      absurd (resolve_context-none_ok reasons rs b h)
  resolve_context-ok reasons rs (some c) b declared found h =
      found_context c reasons rs b declared found (sym (resolve_context-some c reasons) ∙ h)

  -- A binding comes without reasons, and from documents and statuses that pass every test.
  pub resolve-IsBound :
      (rs : List String) (b : AuthorizationBinding)
      → resolve p cfg r now q ≡ ok (rs, some b)
      → (rs ≡ []) × IsBound b
  unfolding resolve
  resolve-IsBound rs b h =
      let step = bind-eq-ok (manifest_mismatches p cfg.manifest q now) _ h in
      resolve_context-ok step.0 rs _ b step.1 refl step.2
