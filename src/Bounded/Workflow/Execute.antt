-- ===== src/Bounded/Workflow/Execute.antt =====
-- `execute`: a call that changes the destination has a persisted and authorized decision, whose
-- binding is resolved again unchanged, the bound adapter, and no attempt before it.
use cognous_agent_control_pl.Base.{
  String, Option, none, some, List, [], ◌∷◌, ◌≡◌, ◌⊎◌, inl, inr, sym, ap, ◌∙◌, arith,
}
use cognous_agent_control_pl.Base.Outcome.{ok, ◌>>=◌, lift}
use cognous_agent_control_pl.Bounded.Models.{AuthorizationBinding, DecisionResult, RuntimeDecision}
use cognous_agent_control_pl.Bounded.Documents.{Platform, Resolver}
use cognous_agent_control_pl.Bounded.Destination.{DestinationFile}
use cognous_agent_control_pl.Bounded.Destination.Laws.{FileIsConsistent, commit-IsConsistent}
use cognous_agent_control_pl.Bounded.Store.{
  Document, RecordFile, stored, lookup_decision, find_decision,
}
use cognous_agent_control_pl.Bounded.World.{World, Config, on_records}
use cognous_agent_control_pl.Bounded.World.History.{lookup_decision-keeps}
use cognous_agent_control_pl.Bounded.World.Untouched.{
  Keeps, keeps_rules, Keeps-records, Keeps-lift, Unless, Unless-bind,
}
use cognous_agent_control_pl.Bounded.Resolve.{resolve}
use cognous_agent_control_pl.Bounded.Context.{effect_id_of}
use cognous_agent_control_pl.Bounded.Resolve.Invert.{IsBound, resolve-IsBound}
use cognous_agent_control_pl.Bounded.Workflow.{refuse, revalidate, perform, resolve_again, execute}
use cognous_agent_control_pl.Bounded.Decisions.{ExecuteCall, admit, apply_call}
use cognous_agent_control_pl.Bounded.Workflow.Admission.{lookup-ok, admit-ok, revalidate-ok}
use cognous_agent_control_pl.Bounded.Workflow.Perform.{attempts_of, Performed, perform-Unless}
use cognous_agent_control_pl.Bounded.Workflow.Dispatch.{Committed}

module _ (p : Platform) (cfg : Config) (r : Resolver) (c : ExecuteCall) where
  -- What holds of a call that changes the destination from `before` to `after`.
  pub record IsEffected (records : RecordFile) (before after : DestinationFile) : Type 0 where
    pub document : Document
    pub recorded : records ≡ stored document
    -- the decision is the persisted one, and authorizes this effect
    pub persisted : find_decision c.decision.decision_id document.run.decisions ≡ some c.decision
    pub authorized : c.decision.result ≡ DecisionResult.authorized
    pub binding : AuthorizationBinding
    pub of_decision : c.decision.binding ≡ some binding
    pub effect_id : c.decision.effect_id ≡ effect_id_of p binding
    -- resolved at the time of the call, the proposal gives the same binding
    pub current : IsBound p cfg r c.now c.proposal binding
    pub adapter : c.adapter_id ≡ binding.adapter_id
    pub untried : attempts_of c.decision.effect_id document ≡ []
    pub committed : Committed (apply_call c c.decision binding) before after

  same_document : (f : RecordFile) (d d' : Document) → f ≡ stored d → f ≡ stored d' → d' ≡ d
  same_document f d d' h k = ground arith

  refuse-Keeps :
      (d : RuntimeDecision) (b : AuthorizationBinding) (reasons : List String)
      → Keeps (refuse p cfg r c d b reasons)
  unfolding refuse
  refuse-Keeps d b reasons = search keeps_rules

  revalidate-Keeps :
      (d : RuntimeDecision) (b : AuthorizationBinding)
      (found : List String × Option AuthorizationBinding)
      → Keeps (revalidate p cfg r c d b found)
  unfolding revalidate
  revalidate-Keeps d b ([], some current) = search (keeps_rules, refuse-Keeps)
  revalidate-Keeps d b ([], none) = search (keeps_rules, refuse-Keeps)
  revalidate-Keeps d b (x ∷ reasons, o) = search (keeps_rules, refuse-Keeps)

  and_also : {X Y Z : Type 0} → Z → X ⊎ Y → X ⊎ (Z × Y)
  and_also z (inl x) = inl x
  and_also z (inr y) = inr (z, y)

  -- The performance of a binding that is the one of the decision, in the same world.
  resumed :
      (d : RuntimeDecision) (b current : AuthorizationBinding) (w w' : World)
      → current ≡ b
      → w' ≡ w
      → IsBound p cfg r c.now c.proposal b
      → Unless
          (λ f. IsBound p cfg r c.now c.proposal b × Performed c d b w.records w.destination f)
          (perform p cfg r c d current)
          w'
  resumed d b current w w' same here bound =
      rw (same, here) (and_also bound (perform-Unless p cfg r c d b w))

  resolved-IsBound :
      (b : AuthorizationBinding) (found : List String × Option AuthorizationBinding)
      → resolve p cfg r c.now c.proposal ≡ ok found
      → found ≡ ([], some b)
      → IsBound p cfg r c.now c.proposal b
  resolved-IsBound b found h same =
      (resolve-IsBound p cfg r c.now c.proposal [] b (h ∙ ap ok same)).1

  resolve_again-Unless :
      (d : RuntimeDecision) (b : AuthorizationBinding) (w : World)
      → Unless
          (λ f. IsBound p cfg r c.now c.proposal b × Performed c d b w.records w.destination f)
          (resolve_again p cfg r c (d, b))
          w
  unfolding resolve_again
  resolve_again-Unless d b w =
      let P = λ (f : DestinationFile).
        IsBound p cfg r c.now c.proposal b × Performed c d b w.records w.destination f in
      Unless-bind P (lift (resolve p cfg r c.now c.proposal))
        (λ found. revalidate p cfg r c d b found >>= perform p cfg r c d) w
        (Keeps-lift (resolve p cfg r c.now c.proposal))
        (λ found h _.
          Unless-bind P (revalidate p cfg r c d b found) (perform p cfg r c d) w
            (revalidate-Keeps d b found)
            (λ current e _.
              let (same, only, here) = revalidate-ok p cfg r c d b current found w e in
              resumed d b current w (revalidate p cfg r c d b found w).1 same here
                (resolved-IsBound b found h only)))

  for_decision :
      (e d : RuntimeDecision) (b : AuthorizationBinding) (before after : DestinationFile)
      → d ≡ e
      → Committed (apply_call c d b) before after
      → Committed (apply_call c e b) before after
  for_decision e d b before after same h = rw (sym same) h

  effected :
      (d : RuntimeDecision) (b : AuthorizationBinding) (o : Option RuntimeDecision) (w : World)
      (kept changed : DestinationFile)
      → (lookup_decision c.decision.decision_id w.records).0 ≡ ok o
      → admit p c.decision o ≡ ok (d, b)
      → (changed ≡ kept)
        ⊎ (IsBound p cfg r c.now c.proposal b × Performed c d b w.records w.destination changed)
      → (changed ≡ kept) ⊎ IsEffected w.records w.destination changed
  effected d b o w kept changed found admitted (inl k) = inl k
  effected d b o w kept changed found admitted (inr (bound, done)) =
      let (same, there, result, binding, effect) = admit-ok p cfg r c c.decision d o b admitted in
      let (document, recorded, looked) = lookup-ok c.decision.decision_id w.records o found in
      let same_doc = same_document w.records document done.document recorded done.recorded in
      inr (record {
        document = document;
        recorded = recorded;
        persisted = sym looked ∙ there;
        authorized = result;
        binding = b;
        of_decision = binding;
        effect_id = effect;
        current = bound;
        adapter = done.adapter;
        untried =
            sym (ap (λ (x : RuntimeDecision). attempts_of x.effect_id document) same)
            ∙ (sym (ap (attempts_of d.effect_id) same_doc) ∙ done.untried);
        committed = for_decision c.decision d b w.destination changed same done.committed;
      })

  resumed_lookup :
      (d : RuntimeDecision) (b : AuthorizationBinding) (w w' : World)
      → w' ≡ w
      → Unless
          (λ f. IsBound p cfg r c.now c.proposal b × Performed c d b w.records w.destination f)
          (resolve_again p cfg r c (d, b))
          w'
  resumed_lookup d b w w' here = rw here (resolve_again-Unless d b w)

  -- A call leaves the destination as it was, unless its decision is the persisted one, authorizes
  -- this effect, binds what the proposal resolves to at the time of the call and this adapter, no
  -- attempt at the effect is recorded, the readable destination does not have the effect and the
  -- grant has room for it. Then the destination gains that effect and nothing else, also where the
  -- call raises.
  pub execute-IsEffected :
      (w : World) → Unless (IsEffected w.records w.destination) (execute p cfg r c) w
  unfolding execute
  execute-IsEffected w =
      let P = IsEffected w.records w.destination in
      let k = c.decision.decision_id in
      let w1 = (on_records (lookup_decision k) w).1 in
      let here : w1 ≡ w = ap (λ f. record w { records = f }) (lookup_decision-keeps k w.records) in
      Unless-bind P (on_records (lookup_decision k))
        (λ o. lift (admit p c.decision o) >>= resolve_again p cfg r c) w
        (Keeps-records (lookup_decision k))
        (λ o found _.
          Unless-bind P (lift (admit p c.decision o)) (resolve_again p cfg r c) w1
            (Keeps-lift (admit p c.decision o))
            (λ admitted e _.
              effected admitted.0 admitted.1 o w w1.destination _ found e
                (resumed_lookup admitted.0 admitted.1 w w1 here)))

  -- A call keeps a consistent destination consistent, whatever its outcome.
  pub execute-FileIsConsistent :
      (w : World)
      → FileIsConsistent w.destination
      → FileIsConsistent (execute p cfg r c w).1.destination
  execute-FileIsConsistent w v = elim (execute-IsEffected w) [
    | inl kept ↦ rw kept v
    | inr done ↦ rw done.committed.becomes (
        commit-IsConsistent (apply_call c c.decision done.binding) done.committed.state
          done.committed.unseen (rw done.committed.was at v))
  ]
