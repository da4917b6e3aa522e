-- ===== src/Bounded/Workflow/Perform.antt =====
-- `execute` from a revalidated binding on: when its steps change the destination.
use cognous_agent_control_pl.Base.{
  String, some, List, [], ◌≡◌, ◌⊎◌, inl, inr, sym, ap, ◌∙◌, ◌==◌, keep,
}
use cognous_agent_control_pl.Base.Outcome.{ok, ◌>>=◌}
use cognous_agent_control_pl.Bounded.Models.{
  AuthorizationBinding, RuntimeDecision, EffectAttempt, BoundedRunRecord,
}
use cognous_agent_control_pl.Bounded.Documents.{Platform, Resolver}
use cognous_agent_control_pl.Bounded.Destination.{ApplyCall, DestinationFile}
use cognous_agent_control_pl.Bounded.Store.{Document, RecordFile, stored, load}
use cognous_agent_control_pl.Bounded.World.{World, Config, on_records}
use cognous_agent_control_pl.Bounded.World.Untouched.{Keeps, Keeps-records, Unless, Unless-bind}
use cognous_agent_control_pl.Bounded.Observation.{Moment, observe_and_reconcile}
use cognous_agent_control_pl.Bounded.Workflow.{match_adapter, dispatch, observe_first, perform}
use cognous_agent_control_pl.Bounded.Decisions.{ExecuteCall, apply_call}
use cognous_agent_control_pl.Bounded.Workflow.Admission.{load-ok}
use cognous_agent_control_pl.Bounded.Workflow.Dispatch.{
  Committed, observe_and_reconcile-Keeps, dispatch-Unless, match_adapter-ok, match_adapter-world,
}

-- The attempts at an effect in a record.
abbrev pub attempts_of : String → Document → List EffectAttempt
attempts_of k d = keep (λ a. a.effect_id == k) d.run.attempts

-- What the performance of a revalidated binding establishes when the destination changes.
pub record Performed (c : ExecuteCall) (d : RuntimeDecision) (b : AuthorizationBinding)
    (records : RecordFile) (before after : DestinationFile) : Type 0 where
  pub adapter : c.adapter_id ≡ b.adapter_id
  pub document : Document
  pub recorded : records ≡ stored document
  pub untried : attempts_of d.effect_id document ≡ []
  pub committed : Committed (apply_call c d b) before after

module _ (p : Platform) (cfg : Config) (r : Resolver) (c : ExecuteCall) where
  match_adapter-Keeps : (b : AuthorizationBinding) → Keeps (match_adapter p cfg r c b)
  match_adapter-Keeps b = record {
    at = λ w. ap (λ (x : World). x.destination) (match_adapter-world p cfg r c b w);
  }

  moved :
      (X : Type 0) (a : ApplyCall) (before between after : DestinationFile) (Y : Type 0)
      → between ≡ before
      → Y ⊎ (X × Committed a between after)
      → Y ⊎ (X × Committed a before after)
  moved X a before between after Y same h = rw (sym same) h

  -- The performance, from what each of its steps has given.
  performed :
      (d : RuntimeDecision) (b : AuthorizationBinding) (w w' : World) (run : BoundedRunRecord)
      (kept changed : DestinationFile)
      → c.adapter_id ≡ b.adapter_id
      → (load w.records).0 ≡ ok run
      → w'.destination ≡ w.destination
      → (changed ≡ kept)
        ⊎ ((keep (λ (a : EffectAttempt). a.effect_id == d.effect_id) run.attempts ≡ [])
            × Committed (apply_call c d b) w'.destination changed)
      → (changed ≡ kept) ⊎ Performed c d b w.records w.destination changed
  performed d b w w' run kept changed adapter loaded same (inl k) = inl k
  performed d b w w' run kept changed adapter loaded same (inr (none_before, committed)) =
      let found = load-ok w.records run loaded in
      inr (record {
        adapter = adapter;
        document = found.0;
        recorded = found.1;
        untried = rw (sym found.2) none_before;
        committed = rw (sym same) committed;
      })

  observe_first-Unless :
      (d : RuntimeDecision) (b : AuthorizationBinding) (run : BoundedRunRecord) (w : World)
      → Unless
          (λ f.
            (keep (λ (a : EffectAttempt). a.effect_id == d.effect_id) run.attempts ≡ [])
            × Committed (apply_call c d b) w.destination f)
          (observe_first p cfg r c d b run)
          w
  unfolding observe_first
  observe_first-Unless d b run w =
      let prior = keep (λ (a : EffectAttempt). a.effect_id == d.effect_id) run.attempts in
      let now = some (Moment.aware c.now) in
      Unless-bind (λ f. (prior ≡ []) × Committed (apply_call c d b) w.destination f)
        (observe_and_reconcile p cfg d.effect_id now c.before) (dispatch p cfg r c d b prior) w
        (observe_and_reconcile-Keeps p cfg r c d.effect_id now c.before)
        (λ v _ kept. moved (prior ≡ []) (apply_call c d b) w.destination _ _ _ kept (
          dispatch-Unless p cfg r c d b prior v
            (observe_and_reconcile p cfg d.effect_id now c.before w).1))

  pub perform-Unless :
      (d : RuntimeDecision) (b : AuthorizationBinding) (w : World)
      → Unless (Performed c d b w.records w.destination) (perform p cfg r c d b) w
  unfolding perform
  perform-Unless d b w =
      let P = Performed c d b w.records w.destination in
      let w1 = (match_adapter p cfg r c b w).1 in
      let same = match_adapter-world p cfg r c b w in
      Unless-bind P (match_adapter p cfg r c b)
        (λ _. on_records load >>= observe_first p cfg r c d b) w (match_adapter-Keeps b)
        (λ u adapter kept.
          Unless-bind P (on_records load) (observe_first p cfg r c d b) w1 (Keeps-records load)
            (λ run loaded _.
              performed d b w (on_records load w1).1 run _ _
                (match_adapter-ok p cfg r c b w u adapter)
                (ap (λ (x : World). (load x.records).0) (sym same) ∙ loaded) kept
                (observe_first-Unless d b run (on_records load w1).1)))
