-- ===== src/Bounded/Observation/Reconcile.antt =====
-- What `_observe_and_reconcile` records and returns, on every branch.
use cognous_agent_control_pl.Base.{
  ℕ, String, Bool, true, false, Option, some, List, [], ◌∷◌, ◌≡◌, ◌↔◌, refl, arith, if◌then◌else◌,
  is_empty,
}
use cognous_agent_control_pl.Base.Outcome.{ok}
use cognous_agent_control_pl.Bounded.Models.{
  ObservedState, EffectObservation, ReconciliationOutcome, ReconciliationResult, BoundedRunRecord,
}
use cognous_agent_control_pl.Bounded.Documents.{Platform}
use cognous_agent_control_pl.Bounded.Destination.{DestinationFile}
use cognous_agent_control_pl.Bounded.Store.{Document, stored, Entry, add, append}
use cognous_agent_control_pl.Bounded.World.{Config, world_of}
use cognous_agent_control_pl.Bounded.Observation.{
  Moment, observation_reasons, result_of, outcome_of, reconcile_observation,
}
use cognous_agent_control_pl.Bounded.Observation.Laws.{
  IsAcceptable, reasons-IsAcceptable, IsAcceptable-reasons,
}

outcome-applied :
    (b : Bool) (s : ObservedState)
    → (outcome_of b s ≡ ReconciliationOutcome.applied) ↔ ((b ≡ true) × (s ≡ ObservedState.applied))
unfolding outcome_of
outcome-applied b s = ground arith

outcome-absent :
    (b : Bool) (s : ObservedState)
    → (outcome_of b s ≡ ReconciliationOutcome.observed_absent)
      ↔ ((b ≡ true) × (s ≡ ObservedState.absent))
unfolding outcome_of
outcome-absent b s = ground arith

module _ (p : Platform) (cfg : Config) (k : String) (now : Option Moment) where
  -- The result for an observation, as the code builds it.
  abbrev pub verdict : EffectObservation → ℕ → ReconciliationResult
  verdict o clock =
      let reasons = observation_reasons p cfg k o now in
      result_of p cfg k (some o) now clock (outcome_of (is_empty reasons) o.state)
        (is_empty reasons) reasons

  -- The record after it: the observation only if it was accepted, and always the result.
  abbrev pub after_verdict : EffectObservation → ℕ → BoundedRunRecord → BoundedRunRecord
  after_verdict o clock r =
      add (Entry.reconciliation (verdict o clock))
        (if is_empty (observation_reasons p cfg k o now) then add (Entry.observation o) r else r)

  pub reconcile_observation_lem :
      (o : EffectObservation) (clock : ℕ) (d : Document) (f : DestinationFile)
      → reconcile_observation p cfg k o now clock (world_of d f) ≡ (
        ok (verdict o clock),
        record {
          records =
              stored (record { run = after_verdict o clock d.run; extensions = d.extensions });
          destination = f;
        },
      )
  unfolding reconcile_observation append
  reconcile_observation_lem o clock d f = ground arith

  is_empty_iff : (xs : List String) → (is_empty xs ≡ true) ↔ (xs ≡ [])
  is_empty_iff [] = (λ h. refl, λ h. refl)
  is_empty_iff (x ∷ xs) = (λ h. absurd (ground arith), λ h. absurd (ground arith))

  -- On a readable store, the observation is accepted and kept exactly if it is acceptable; it is
  -- reported as applied or absent only if accepted; the result is always kept, never allows a
  -- retry, and leaves the destination alone.
  pub reconcile_observation-accepts :
      (o : EffectObservation) (clock : ℕ) (d : Document) (f : DestinationFile)
      → let after = reconcile_observation p cfg k o now clock (world_of d f) in
        (v : ReconciliationResult) × (after.0 ≡ ok v)
        × (after.1.destination ≡ f)
        × ((v.observation_accepted ≡ true) ↔ IsAcceptable p cfg k o now)
        × ((v.result ≡ ReconciliationOutcome.applied)
            ↔ (IsAcceptable p cfg k o now × (o.state ≡ ObservedState.applied)))
        × ((v.result ≡ ReconciliationOutcome.observed_absent)
            ↔ (IsAcceptable p cfg k o now × (o.state ≡ ObservedState.absent)))
        × (v.retry_eligible ≡ false)
        × (after.1.records
            ≡ stored (record {
              run =
                  add
                    (Entry.reconciliation v)
                    (if v.observation_accepted then add (Entry.observation o) d.run else d.run);
              extensions = d.extensions;
            }))
  reconcile_observation-accepts o clock d f = (
    verdict o clock,
    rw (reconcile_observation_lem o clock d f),
    rw (reconcile_observation_lem o clock d f),
    unfold result_of in accepted,
    unfold result_of in
        (
          λ h. let (b, s) = (outcome-applied _ o.state).0 h in (accepted.0 b, s),
          λ h. (outcome-applied _ o.state).1 (accepted.1 h.0, h.1),
        ),
    unfold result_of in
        (
          λ h. let (b, s) = (outcome-absent _ o.state).0 h in (accepted.0 b, s),
          λ h. (outcome-absent _ o.state).1 (accepted.1 h.0, h.1),
        ),
    unfold result_of in refl,
    rw (reconcile_observation_lem o clock d f) (unfold result_of in refl),
  )
    where
      accepted : (is_empty (observation_reasons p cfg k o now) ≡ true) ↔ IsAcceptable p cfg k o now
      accepted = (
        λ h. reasons-IsAcceptable p cfg k o now ((is_empty_iff _).0 h),
        λ h. (is_empty_iff _).1 (IsAcceptable-reasons p cfg k o now h),
      )
