-- ===== src/Bounded/Workflow.antt =====
-- src/agent_control_plane/bounded.py: `decide` and `execute` of `BoundedAuthorizationWorkflow`.
-- What `uuid.uuid4()` and `_now()` give in a call are arguments of the call.
pub mod Safety
pub mod Dispatch
pub mod Admission
pub mod Perform
pub mod Execute
pub mod Decide
pub mod Refuse
pub mod Commit
pub mod Complete
pub mod Sequence
use cognous_agent_control_pl.Base.{
  ℕ, String, Bool, true, false, Option, none, some, List, [], ◌∷◌, ◌&&◌, not, ◌==◌, is_empty,
  is_none, keep, holds, sorted_set, if◌then◌else◌,
}
use cognous_agent_control_pl.Base.Outcome.{
  ExnKind, permission_error, timeout_error, Exn, Result, ok, raise, Exec, pure, throw, lift, ◌>>=◌,
  ◌>>◌, attempting,
}
use cognous_agent_control_pl.Bounded.Models.{
  Value, boolean, RuntimeProposal, AuthorizationBinding, AuthorizationBinding-discrete,
  DecisionResult, RuntimeDecision, RuntimeDecision-discrete, AttemptStatus, EffectAttempt,
  EffectTimeRefusal, ObservedState, EffectObservation, ReconciliationOutcome, ReconciliationResult,
  BoundedRunRecord,
}
use cognous_agent_control_pl.Bounded.Documents.{Platform, Committed, Resolver}
use cognous_agent_control_pl.Bounded.Destination.{ApplyCall, ApplyAck, apply, ack_dict}
use cognous_agent_control_pl.Bounded.Store.{Entry, load, lookup_decision}
use cognous_agent_control_pl.Bounded.World.{World, Config, on_records, on_destination, record_entry}
use cognous_agent_control_pl.Bounded.Observation.{Moment, Clock, observe_and_reconcile}
use cognous_agent_control_pl.Bounded.Resolve.{resolve}
use cognous_agent_control_pl.Bounded.Context.{effect_id_of}
use cognous_agent_control_pl.Bounded.Changed.{changed_inputs}
use cognous_agent_control_pl.Bounded.Decisions.{
  ExecuteCall, is_applied, is_absent, observed_partial, failed_with, finished, decision_effect_id,
  decision_of, authorize, admit, attempt_of, apply_call, refusal_reasons,
}

module _ (p : Platform) (cfg : Config) (r : Resolver) where
  unfoldable pub record_decision :
      RuntimeProposal
      → ℕ
      → String
      → List String × Option AuthorizationBinding
      → Exec World RuntimeDecision
  unfolding decision_of
  record_decision q now uuid (reasons, binding) =
      let d = decision_of p uuid now q reasons binding in do record_entry (Entry.decision d); pure d

  -- `decide`
  unfoldable pub decide : RuntimeProposal → ℕ → String → Exec World RuntimeDecision
  unfolding record_decision
  decide q now uuid = do found ← lift (resolve p cfg r now q); record_decision q now uuid found

  unfoldable pub refusal_of :
      ExecuteCall → RuntimeDecision → AuthorizationBinding → List String → EffectTimeRefusal
  unfolding refusal_reasons
  refusal_of c d b reasons = record {
    refusal_id = c.uuid;
    decision_id = d.decision_id;
    effect_id = d.effect_id;
    recorded_at = p.isoformat c.now;
    reasons = refusal_reasons reasons;
    changed_inputs = changed_inputs p r c.proposal b;
  }

  unfoldable pub refuse :
      ExecuteCall
      → RuntimeDecision
      → AuthorizationBinding
      → List String
      → Exec World AuthorizationBinding
  unfolding refusal_of
  refuse c d b reasons = do
    record_entry (Entry.refusal (refusal_of c d b reasons))
    throw permission_error "authorization-critical inputs changed before effect"

  -- Whether what is resolved now is the binding of the decision.
  unfoldable pub revalidate :
      ExecuteCall
      → RuntimeDecision
      → AuthorizationBinding
      → List String × Option AuthorizationBinding
      → Exec World AuthorizationBinding
  unfolding refuse AuthorizationBinding-discrete
  revalidate c d b ([], some current) =
      if holds (AuthorizationBinding-discrete current b) then pure current else refuse c d b []
  revalidate c d b (reasons, _) = refuse c d b reasons

  unfoldable pub match_adapter : ExecuteCall → AuthorizationBinding → Exec World Unit
  match_adapter c b =
      if c.adapter_id == b.adapter_id
      then pure tt
      else throw permission_error "adapter substitution detected"

  -- An effect that is there already: an attempt is recorded, and nothing is applied.
  unfoldable pub reconciled_existing :
      ExecuteCall
      → RuntimeDecision
      → AttemptStatus
      → Option EffectObservation
      → Exec World (EffectAttempt × Option EffectObservation)
  unfolding attempt_of
  reconciled_existing c d status existing =
      let a = attempt_of p c d status (("reconciled_existing", boolean true) ∷ []) in
      do record_entry (Entry.attempt a); pure (a, existing)

  -- The end of `execute`, from what `apply` has returned or raised.
  unfoldable pub settle :
      ExecuteCall
      → RuntimeDecision
      → EffectAttempt
      → Result ApplyAck
      → Exec World (EffectAttempt × Option EffectObservation)
  unfolding finished
  settle c d started ack = do
    record_entry (Entry.attempt (finished started c.partial ack))
    post ← observe_and_reconcile p cfg d.effect_id (some (Moment.aware c.now)) c.after
    pure (
      finished started c.partial ack,
      if post.observation_accepted then post.observation else none,
    )

  -- The attempt, its outcome, and the observation after it.
  unfoldable pub send :
      ExecuteCall
      → RuntimeDecision
      → AuthorizationBinding
      → Exec World (EffectAttempt × Option EffectObservation)
  unfolding attempt_of apply_call settle
  send c d b =
      let started = attempt_of p c d AttemptStatus.attempted [] in
      do
        record_entry (Entry.attempt started)
        ack ← attempting (on_destination (apply (apply_call c d b)))
        settle c d started ack

  -- What follows the observation before the effect.
  unfoldable pub dispatch :
      ExecuteCall
      → RuntimeDecision
      → AuthorizationBinding
      → List EffectAttempt
      → ReconciliationResult
      → Exec World (EffectAttempt × Option EffectObservation)
  unfolding reconciled_existing send is_applied is_absent observed_partial
  dispatch c d b prior_attempts v =
      if is_applied v.result
      then reconciled_existing c d AttemptStatus.acknowledged v.observation
      else (if observed_partial v.observation && v.observation_accepted
          then reconciled_existing c d AttemptStatus.partial v.observation
          else (if not (is_absent v.result)
              then throw permission_error "destination observation is not valid for effect dispatch"
              else (if not (is_empty prior_attempts)
                  then throw permission_error
                      "observed absence does not establish retry eligibility after a prior attempt"
                  else send c d b)))

  -- The observation before the effect, and what follows it.
  unfoldable pub observe_first :
      ExecuteCall
      → RuntimeDecision
      → AuthorizationBinding
      → BoundedRunRecord
      → Exec World (EffectAttempt × Option EffectObservation)
  unfolding dispatch
  observe_first c d b run = do
    v ← observe_and_reconcile p cfg d.effect_id (some (Moment.aware c.now)) c.before
    dispatch c d b (keep (λ a. a.effect_id == d.effect_id) run.attempts) v

  unfoldable pub perform :
      ExecuteCall
      → RuntimeDecision
      → AuthorizationBinding
      → Exec World (EffectAttempt × Option EffectObservation)
  unfolding observe_first match_adapter
  perform c d b = do match_adapter c b; run ← on_records load; observe_first c d b run

  unfoldable pub resolve_again :
      ExecuteCall
      → RuntimeDecision × AuthorizationBinding
      → Exec World (EffectAttempt × Option EffectObservation)
  unfolding revalidate perform
  resolve_again c admitted = do
    found ← lift (resolve p cfg r c.now c.proposal)
    current ← revalidate c admitted.0 admitted.1 found
    perform c admitted.0 current

  -- `execute`
  unfoldable pub execute : ExecuteCall → Exec World (EffectAttempt × Option EffectObservation)
  unfolding admit resolve_again
  execute c = do
    persisted ← on_records (lookup_decision c.decision.decision_id)
    admitted ← lift (admit p c.decision persisted)
    resolve_again c admitted
