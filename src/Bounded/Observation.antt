-- ===== src/Bounded/Observation.antt =====
-- src/agent_control_plane/bounded.py: `reconcile`, `_observe_and_reconcile`,
-- `_trusted_evaluation_time` and `_reconcile_observation`.
pub mod Laws
pub mod Reconcile
pub mod Effects
use cognous_agent_control_pl.Base.{
  ℕ, ◌+◌, ◌*◌, String, Bool, true, false, Option, none, some, List, [], ◌∷◌, ◌++◌, ltb, is_none,
  is_empty, if◌then◌else◌, not, get, ◌==◌, is_blank, note, fstring, sorted_set, Dict, map_option,
}
use cognous_agent_control_pl.Base.Outcome.{
  Exn, Result, ok, raise, Exec, pure, ◌>>=◌, ◌>>◌, exn_name, attempting, when,
}
use cognous_agent_control_pl.Bounded.Models.{
  Value, text, ObservedState, EffectObservation, ObservationPolicy, ReconciliationOutcome,
  ReconciliationResult,
}
use cognous_agent_control_pl.Bounded.Documents.{Platform, Timestamp, second}
use cognous_agent_control_pl.Bounded.Destination.{observe}
use cognous_agent_control_pl.Bounded.Store.{Entry}
use cognous_agent_control_pl.Bounded.World.{World, Config, on_destination, record_entry}

-- A `datetime` argument: with no timezone, or an instant.
pub data Moment : Type 0 where
  naive : ℕ → Moment
  aware : ℕ → Moment

-- What `_now()` reads in one observation: at the destination, and for the result.
pub record Clock : Type 0 where
  pub observed : ℕ
  pub reconciled : ℕ

-- `_trusted_evaluation_time`, and the reasons that it appends.
unfoldable pub evaluation_time : Option Moment → Option ℕ × List String
evaluation_time none = (none, "evaluation_time_missing" ∷ [])
evaluation_time (some (Moment.naive t)) = (none, "evaluation_time_timezone_missing" ∷ [])
evaluation_time (some (Moment.aware t)) = (some t, [])

abbrev read_timestamp : Timestamp → Option ℕ × List String
read_timestamp Timestamp.malformed = (none, "observation_time_malformed" ∷ [])
read_timestamp (Timestamp.naive t) = (none, "observation_time_timezone_missing" ∷ [])
read_timestamp (Timestamp.aware t) = (some t, [])

-- The time of the observation, and the reasons where it has none.
unfoldable pub observation_time : Platform → Option String → Option ℕ × List String
observation_time p none = (none, "observation_time_missing" ∷ [])
observation_time p (some raw) =
    if is_blank raw
    then (none, "observation_time_missing" ∷ [])
    else read_timestamp (p.fromisoformat raw)

-- The comparison of the three, made only where each is there.
unfoldable pub age_reasons : Option ℕ → Option ℕ → Option ObservationPolicy → List String
age_reasons (some observed) (some now) (some policy) =
    if ltb (now + policy.clock_tolerance_seconds * second) observed
    then "observation_time_future" ∷ []
    else note (ltb (observed + policy.max_age_seconds * second) now) "observation_stale"
age_reasons _ _ _ = []

-- `value == s`, for what a dictionary holds.
unfoldable pub is_text : String → Option Value → Bool
is_text s (some (text t)) = t == s
is_text s _ = false

unfoldable pub observed_text : ObservedState → String
observed_text ObservedState.absent = "absent"
observed_text ObservedState.applied = "applied"
observed_text ObservedState.partial = "partial"
observed_text ObservedState.unknown = "unknown"

landed_reasons : String → ObservedState → Dict Value → List String
unfolding is_text observed_text
landed_reasons effect_id state d =
    note (not (is_text effect_id (get "effect_id" d))) "destination_effect_id_mismatch"
    ++ note (not (is_text (observed_text state) (get "state" d))) "destination_state_contradiction"

unfoldable pub state_reasons : String → ObservedState → Dict Value → List String
unfolding landed_reasons
state_reasons effect_id ObservedState.applied d = landed_reasons effect_id ObservedState.applied d
state_reasons effect_id ObservedState.partial d = landed_reasons effect_id ObservedState.partial d
state_reasons effect_id ObservedState.absent d =
    note (not (is_empty d)) "absence_has_destination_state"
state_reasons effect_id ObservedState.unknown d = "observation_state_unknown" ∷ []

unfoldable pub outcome_of : Bool → ObservedState → ReconciliationOutcome
outcome_of false _ = ReconciliationOutcome.hold
outcome_of true ObservedState.applied = ReconciliationOutcome.applied
outcome_of true ObservedState.absent = ReconciliationOutcome.observed_absent
outcome_of true ObservedState.partial = ReconciliationOutcome.hold
outcome_of true ObservedState.unknown = ReconciliationOutcome.hold

module _ (p : Platform) (cfg : Config) where
  -- All reasons against an observation, in the order of the code.
  unfoldable pub observation_reasons : String → EffectObservation → Option Moment → List String
  unfolding evaluation_time observation_time age_reasons state_reasons
  observation_reasons effect_id o now =
      let evaluated = evaluation_time now in
      let read = observation_time p o.observed_at in
      evaluated.1
      ++ (note (is_none cfg.observation_policy) "observation_policy_missing"
          ++ (note (not (o.effect_id == effect_id)) "observation_effect_id_mismatch"
              ++ (read.1
                  ++ (age_reasons read.0 evaluated.0 cfg.observation_policy
                      ++ state_reasons effect_id o.state o.destination_state))))

  unfoldable pub result_of :
      String
      → Option EffectObservation
      → Option Moment
      → ℕ
      → ReconciliationOutcome
      → Bool
      → List String
      → ReconciliationResult
  unfolding evaluation_time
  result_of effect_id o now reconciled result accepted reasons = record {
    effect_id = effect_id;
    reconciled_at = p.isoformat reconciled;
    result = result;
    observation = o;
    observation_accepted = accepted;
    retry_eligible = false;
    reasons = sorted_set reasons;
    evaluation_time = map_option p.isoformat (evaluation_time now).0;
    observation_max_age_seconds =
        map_option (λ (q : ObservationPolicy). q.max_age_seconds) cfg.observation_policy;
    observation_clock_tolerance_seconds =
        map_option (λ (q : ObservationPolicy). q.clock_tolerance_seconds) cfg.observation_policy;
  }

  -- `_reconcile_observation`
  unfoldable pub reconcile_observation :
      String → EffectObservation → Option Moment → ℕ → Exec World ReconciliationResult
  unfolding result_of outcome_of
  reconcile_observation effect_id o now reconciled =
      let reasons = observation_reasons effect_id o now in
      let accepted = is_empty reasons in
      let value =
        result_of effect_id (some o) now reconciled (outcome_of accepted o.state) accepted
          reasons in
      do
        when accepted (record_entry (Entry.observation o))
        record_entry (Entry.reconciliation value)
        pure value

  -- The branch of `_observe_and_reconcile` where the destination cannot be observed.
  unfoldable pub observation_unavailable :
      String → Exn → Option Moment → ℕ → Exec World ReconciliationResult
  unfolding result_of evaluation_time
  observation_unavailable effect_id e now reconciled =
      let reasons =
        (evaluation_time now).1
        ++ note (is_none cfg.observation_policy) "observation_policy_missing"
        ++ fstring ("observation_unavailable:" ∷ exn_name e.kind ∷ []) ∷ [] in
      let value =
        result_of effect_id none now reconciled ReconciliationOutcome.hold false reasons in
      do record_entry (Entry.reconciliation value); pure value

  unfoldable pub observed_or_not :
      String → Option Moment → ℕ → Result EffectObservation → Exec World ReconciliationResult
  unfolding reconcile_observation observation_unavailable
  observed_or_not effect_id now reconciled (ok o) = reconcile_observation effect_id o now reconciled
  observed_or_not effect_id now reconciled (raise e) =
      observation_unavailable effect_id e now reconciled

  -- `_observe_and_reconcile`, and `reconcile`, which only calls it.
  unfoldable pub observe_and_reconcile :
      String → Option Moment → Clock → Exec World ReconciliationResult
  unfolding observed_or_not
  observe_and_reconcile effect_id now clock = do
    r ← attempting (on_destination (observe p effect_id clock.observed))
    observed_or_not effect_id now clock.reconciled r
