-- ===== src/Bounded/Observation/Effects.antt =====
-- `reconcile` on every file: it never touches the destination, only adds to the history, never
-- allows a retry, and tells the truth about a destination that can be read.
use cognous_agent_control_pl.Base.{
  ℕ, ◌+◌, ◌*◌, ◌≤◌, String, true, false, Option, none, some, ◌≡◌, ◌≢◌, refl, ap, ◌∙◌, get, arith,
}
use cognous_agent_control_pl.Base.Outcome.{Exn, Result, ok, raise}
use cognous_agent_control_pl.Bounded.Models.{
  text, EffectObservation, ObservationPolicy, ReconciliationOutcome, ReconciliationResult,
}
use cognous_agent_control_pl.Bounded.Documents.{Platform, PrintsTime, second}
use cognous_agent_control_pl.Bounded.Destination.{
  CommittedState, Effect, DestinationState, DestinationFile, readable, unreadable, observe,
  observation_of, effect_dict, observed_state,
}
use cognous_agent_control_pl.Bounded.Destination.Laws.{IsConsistent}
use cognous_agent_control_pl.Bounded.Store.{Document}
use cognous_agent_control_pl.Bounded.Store.Append.{Grows}
use cognous_agent_control_pl.Bounded.World.{World, Config, world_of}
use cognous_agent_control_pl.Bounded.Observation.{
  Moment, Clock, result_of, outcome_of, reconcile_observation, observation_unavailable,
  observe_and_reconcile, observed_or_not,
}
use cognous_agent_control_pl.Bounded.Observation.Laws.{
  IsAcceptable, IsCoherent, IsAcceptable-reasons,
}
use cognous_agent_control_pl.Bounded.World.History.{
  Adds, adds_rules, Adds-bind, Adds-when, Adds-entry, Adds-pure,
}
use cognous_agent_control_pl.Bounded.Observation.Reconcile.{verdict, reconcile_observation_lem}

module _ (p : Platform) (cfg : Config) (k : String) (now : Option Moment) where
  reconcile_observation-Adds :
      (o : EffectObservation) (clock : ℕ) → Adds (reconcile_observation p cfg k o now clock)
  unfolding reconcile_observation
  reconcile_observation-Adds o clock =
      Adds-bind _ _ (Adds-when _ _ (Adds-entry _))
        (λ _. Adds-bind _ _ (Adds-entry _) (λ _. Adds-pure _))

  observation_unavailable-Adds :
      (e : Exn) (clock : ℕ) → Adds (observation_unavailable p cfg k e now clock)
  unfolding observation_unavailable
  observation_unavailable-Adds e clock = search adds_rules

  observed_or_not-Adds :
      (clock : ℕ) (r : Result EffectObservation) → Adds (observed_or_not p cfg k now clock r)
  unfolding observed_or_not
  observed_or_not-Adds clock (ok o) = reconcile_observation-Adds o clock
  observed_or_not-Adds clock (raise e) = observation_unavailable-Adds e clock

  pub observe_and_reconcile-Adds : (clock : Clock) → Adds (observe_and_reconcile p cfg k now clock)
  unfolding observe_and_reconcile
  observe_and_reconcile-Adds clock = search (adds_rules, observed_or_not-Adds)

  observe-file : (clock : ℕ) (f : DestinationFile) → (observe p k clock f).1 ≡ f
  unfolding observe
  observe-file clock (readable s) = refl
  observe-file clock (unreadable e) = refl

  observed_or_not-destination :
      (clock : ℕ) (r : Result EffectObservation) (w : World)
      → (observed_or_not p cfg k now clock r w).1.destination ≡ w.destination
  unfolding observed_or_not reconcile_observation observation_unavailable
  observed_or_not-destination clock (ok o) w = ground arith
  observed_or_not-destination clock (raise e) w = ground arith

  pub observe_and_reconcile-destination :
      (clock : Clock) (w : World)
      → (observe_and_reconcile p cfg k now clock w).1.destination ≡ w.destination
  unfolding observe_and_reconcile
  observe_and_reconcile-destination clock w =
      observed_or_not-destination clock.reconciled _ _ ∙ observe-file clock.observed w.destination

  observed_or_not-no_retry :
      (clock : ℕ) (r : Result EffectObservation) (w : World) (v : ReconciliationResult)
      → (observed_or_not p cfg k now clock r w).0 ≡ ok v
      → (v.retry_eligible ≡ false) × (v.result ≢ ReconciliationOutcome.safe_to_retry)
  unfolding observed_or_not reconcile_observation observation_unavailable
  observed_or_not-no_retry clock (ok o) w v h = ground arith
  observed_or_not-no_retry clock (raise e) w v h = ground arith

  observe_and_reconcile-no_retry :
      (clock : Clock) (w : World) (v : ReconciliationResult)
      → (observe_and_reconcile p cfg k now clock w).0 ≡ ok v
      → (v.retry_eligible ≡ false) × (v.result ≢ ReconciliationOutcome.safe_to_retry)
  unfolding observe_and_reconcile
  observe_and_reconcile-no_retry clock w v h = observed_or_not-no_retry clock.reconciled _ _ v h

  -- Reconciling, whatever the files hold and whatever is observed, leaves the destination alone,
  -- only adds to the history, and never returns that a retry is allowed.
  pub reconcile-harmless :
      (clock : Clock) (w : World)
      → let after = observe_and_reconcile p cfg k now clock w in
        (after.1.destination ≡ w.destination)
        × Grows w.records after.1.records
        × ((v : ReconciliationResult)
            → after.0 ≡ ok v
            → (v.retry_eligible ≡ false) × (v.result ≢ ReconciliationOutcome.safe_to_retry))
  reconcile-harmless clock w = (
    observe_and_reconcile-destination clock w,
    (observe_and_reconcile-Adds clock).at w,
    observe_and_reconcile-no_retry clock w,
  )

-- What a destination that can be read should be reported as.
abbrev pub truth : Option Effect → ReconciliationOutcome
truth none = ReconciliationOutcome.observed_absent
truth (some e) = elim e.state [
  | CommittedState.applied ↦ ReconciliationOutcome.applied
  | CommittedState.partial ↦ ReconciliationOutcome.hold
]

effect-IsCoherent :
    (k : String) (e : Effect) (s : CommittedState)
    → e.effect_id ≡ k
    → IsCoherent k (observed_state s) (effect_dict (record e { state = s }))
unfolding observed_state effect_dict get
effect-IsCoherent k e CommittedState.applied h = (ap (λ x. some (text x)) h, refl)
effect-IsCoherent k e CommittedState.partial h = (ap (λ x. some (text x)) h, refl)

module _ (p : Platform) (times : PrintsTime p) (cfg : Config) (k : String) where
  observation-IsCoherent :
      (clock : ℕ) (o : Option Effect)
      → ((e : Effect) → o ≡ some e → e.effect_id ≡ k)
      → IsCoherent k
          (observation_of p k clock o).state
          (observation_of p k clock o).destination_state
  unfolding observation_of
  observation-IsCoherent clock none h = refl
  observation-IsCoherent clock (some e) h = effect-IsCoherent k e e.state (h e refl)

  observation-fields :
      (clock : ℕ) (o : Option Effect)
      → ((observation_of p k clock o).effect_id ≡ k)
        × ((observation_of p k clock o).observed_at ≡ some (p.isoformat clock))
  unfolding observation_of
  observation-fields clock none = (refl, refl)
  observation-fields clock (some e) = (refl, refl)

  truth_lem :
      (clock : ℕ) (o : Option Effect) → outcome_of true (observation_of p k clock o).state ≡ truth o
  unfolding outcome_of observation_of
  truth_lem clock none = refl
  truth_lem clock (some e) = ground arith

  observed-IsAcceptable :
      (t : ℕ) (policy : ObservationPolicy) (clock : ℕ) (s : DestinationState)
      → cfg.observation_policy ≡ some policy
      → clock ≤ t + policy.clock_tolerance_seconds * second
      → t ≤ clock + policy.max_age_seconds * second
      → IsConsistent s
      → IsAcceptable p cfg k (observation_of p k clock (get k s.effects)) (some (Moment.aware t))
  observed-IsAcceptable t policy clock s there early recent v = (
    t,
    clock,
    policy,
    p.isoformat clock,
    refl,
    there,
    (observation-fields clock (get k s.effects)).0,
    (observation-fields clock (get k s.effects)).1,
    times.visible clock,
    times.reads clock,
    early,
    recent,
    observation-IsCoherent clock (get k s.effects) (v.identified k),
  )

  -- With a policy, an aware evaluation time, and a clock that the policy tolerates, the result for
  -- a consistent readable destination is the truth: applied exactly if the effect is committed
  -- whole, absent exactly if it is not committed, and the observation is accepted.
  pub reconcile-truth :
      (t : ℕ) (policy : ObservationPolicy) (clock : Clock) (d : Document) (s : DestinationState)
      → cfg.observation_policy ≡ some policy
      → clock.observed ≤ t + policy.clock_tolerance_seconds * second
      → t ≤ clock.observed + policy.max_age_seconds * second
      → IsConsistent s
      → (v : ReconciliationResult) × ((observe_and_reconcile p cfg k
            (some (Moment.aware t))
            clock
            (world_of d (readable s))).0
          ≡ ok v)
        × (v.result ≡ truth (get k s.effects))
        × (v.observation_accepted ≡ true)
        × (v.observation ≡ some (observation_of p k clock.observed (get k s.effects)))
  unfolding observe_and_reconcile observe
  reconcile-truth t policy clock d s there early recent v =
      let o = observation_of p k clock.observed (get k s.effects) in
      let nothing =
        IsAcceptable-reasons p cfg k o (some (Moment.aware t))
          (observed-IsAcceptable t policy clock.observed s there early recent v) in
      (
        verdict p cfg k (some (Moment.aware t)) o clock.reconciled,
        ap (λ x. x.0)
            (reconcile_observation_lem p cfg k (some (Moment.aware t)) o clock.reconciled d
              (readable s)),
        unfold result_of in rw nothing (truth_lem clock.observed (get k s.effects)),
        unfold result_of in rw nothing,
        unfold result_of in refl,
      )
