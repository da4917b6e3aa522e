-- ===== src/Bounded/Workflow/Decide.antt =====
-- `decide`: the decision that a call returns and records, on every outcome of `_resolve`.
use cognous_agent_control_pl.Base.{
  ℕ, String, false, Option, none, some, List, [], ◌∷◌, ◌≡◌, ◌≢◌, ◌⊎◌, inl, inr, refl, ap, ◌∙◌,
  arith, eq_iff,
}
use cognous_agent_control_pl.Base.Outcome.{Exn, ok, raise, Result-cases}
use cognous_agent_control_pl.Bounded.Models.{
  RuntimeProposal, AuthorizationBinding, DecisionResult, RuntimeDecision,
}
use cognous_agent_control_pl.Bounded.Documents.{Platform, Resolver}
use cognous_agent_control_pl.Bounded.Destination.{DestinationFile}
use cognous_agent_control_pl.Bounded.Store.{
  Document, Entry, add, append, lookup_decision, find_decision,
}
use cognous_agent_control_pl.Bounded.Store.Lookup.{has_decision, find_decision-add}
use cognous_agent_control_pl.Bounded.World.{World, Config, world_of}
use cognous_agent_control_pl.Bounded.Resolve.{resolve}
use cognous_agent_control_pl.Bounded.Context.{effect_id_of}
use cognous_agent_control_pl.Bounded.Resolve.Invert.{IsBound, resolve-IsBound}
use cognous_agent_control_pl.Bounded.Resolve.Reasons.{resolve-reasons}
use cognous_agent_control_pl.Bounded.Workflow.{record_decision, decide}
use cognous_agent_control_pl.Bounded.Decisions.{decision_of, decision_effect_id}

-- The document after one more entry.
abbrev pub and_entry : Entry → Document → Document
and_entry x d = record { run = add x d.run; extensions = d.extensions }

module _ (p : Platform) (cfg : Config) (r : Resolver) (q : RuntimeProposal) (now : ℕ)
    (uuid : String) where
  -- An authorization that stands for what was resolved, or a hold with its reasons.
  pub record Authorizes (d : RuntimeDecision) : Type 0 where
    pub result : d.result ≡ DecisionResult.authorized
    pub no_reason : d.reasons ≡ []
    pub binding : AuthorizationBinding
    pub bound : d.binding ≡ some binding
    pub effect_id : d.effect_id ≡ effect_id_of p binding
    pub resolved : IsBound p cfg r now q binding

  pub record Holds (d : RuntimeDecision) : Type 0 where
    pub result : d.result ≡ DecisionResult.hold
    pub reasons : d.reasons ≢ []
    pub unbound : d.binding ≡ none

  decided :
      (rs : List String) (o : Option AuthorizationBinding)
      → resolve p cfg r now q ≡ ok (rs, o)
      → Authorizes (decision_of p uuid now q rs o) ⊎ Holds (decision_of p uuid now q rs o)
  unfolding decision_of
  decided [] none h = absurd (resolve-reasons p cfg r now q [] h refl)
  decided [] (some b) h = inl (record {
    result = refl;
    no_reason = refl;
    binding = b;
    bound = refl;
    effect_id = unfold decision_effect_id in refl;
    resolved = (resolve-IsBound p cfg r now q [] b h).1;
  })
  decided (x ∷ rs) none h = inr (record { result = refl; reasons = λ e. cc; unbound = refl })
  decided (x ∷ rs) (some b) h =
      absurd (ground (arith, (resolve-IsBound p cfg r now q (x ∷ rs) b h).0))

  decide-ok :
      (rs : List String) (o : Option AuthorizationBinding) (doc : Document) (f : DestinationFile)
      → resolve p cfg r now q ≡ ok (rs, o)
      → decide p cfg r q now uuid (world_of doc f) ≡ (
        ok (decision_of p uuid now q rs o),
        world_of (and_entry (Entry.decision (decision_of p uuid now q rs o)) doc) f,
      )
  unfolding decide record_decision append add
  decide-ok rs o doc f h = rw h

  decide-raises :
      (e : Exn) (w : World)
      → resolve p cfg r now q ≡ raise e
      → decide p cfg r q now uuid w ≡ (raise e, w)
  unfolding decide
  decide-raises e w h = rw h

  -- A call either raises what resolving raises and changes nothing, or returns a decision under its
  -- fresh identifier, appends that decision to the record and changes nothing else. The decision
  -- authorizes with the binding of the proposal, or holds with at least one reason and no binding.
  pub decide-IsDecided :
      (doc : Document) (f : DestinationFile)
      → ((e : Exn) × (resolve p cfg r now q ≡ raise e)
          × (decide p cfg r q now uuid (world_of doc f) ≡ (raise e, world_of doc f)))
        ⊎ ((d : RuntimeDecision) × (decide p cfg r q now uuid (world_of doc f)
              ≡ (ok d, world_of (and_entry (Entry.decision d) doc) f))
            × (d.decision_id ≡ uuid)
            × (Authorizes d ⊎ Holds d))
  decide-IsDecided doc f = elim (Result-cases (resolve p cfg r now q)) [
    | inl ((rs, o), h) ↦ inr (
      decision_of p uuid now q rs o,
      decide-ok rs o doc f h,
      unfold decision_of in refl,
      decided rs o h,
    )
    | inr (e, h) ↦ inl (e, h, decide-raises e (world_of doc f) h)
  ]

  found_after :
      (d : RuntimeDecision) (doc : Document)
      → d.decision_id ≡ uuid
      → has_decision uuid doc.run.decisions ≡ false
      → find_decision uuid (and_entry (Entry.decision d) doc).run.decisions ≡ some d
  unfolding add
  found_after d doc same fresh =
      find_decision-add d doc.run.decisions uuid ∙ ground (arith, eq_iff d.decision_id uuid)

  -- Where resolving does not raise and no recorded decision has the identifier, the decision that
  -- the call returns is the one that the record then gives for the identifier.
  pub decide-lookup :
      (doc : Document) (f : DestinationFile) (rs : List String) (o : Option AuthorizationBinding)
      → resolve p cfg r now q ≡ ok (rs, o)
      → has_decision uuid doc.run.decisions ≡ false
      → let after = decide p cfg r q now uuid (world_of doc f) in
        (d : RuntimeDecision) × (after.0 ≡ ok d)
        × ((lookup_decision uuid after.1.records).0 ≡ ok (some d))
  decide-lookup doc f rs o h fresh =
      let d = decision_of p uuid now q rs o in
      (
        d,
        ap (λ x. x.0) (decide-ok rs o doc f h),
        rw (decide-ok rs o doc f h) (
            unfold lookup_decision in
            ap (λ x. ok x) (found_after d doc (unfold decision_of in refl) fresh)),
      )
