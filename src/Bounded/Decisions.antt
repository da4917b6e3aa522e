-- ===== src/Bounded/Decisions.antt =====
-- src/agent_control_plane/bounded.py: the decisions, attempts and calls that `decide` and `execute`
-- build, and the tests of a persisted decision.
use cognous_agent_control_pl.Base.{
  ℕ, String, Bool, true, false, Option, none, some, List, [], ◌∷◌, not, ◌==◌, is_empty, holds,
  sorted_set, if◌then◌else◌,
}
use cognous_agent_control_pl.Base.Outcome.{
  ExnKind, permission_error, timeout_error, Exn, Result, ok, raise,
}
use cognous_agent_control_pl.Bounded.Models.{
  Value, RuntimeProposal, AuthorizationBinding, DecisionResult, RuntimeDecision,
  RuntimeDecision-discrete, AttemptStatus, EffectAttempt, ObservedState, EffectObservation,
  ReconciliationOutcome,
}
use cognous_agent_control_pl.Bounded.Documents.{Platform, Committed}
use cognous_agent_control_pl.Bounded.Destination.{ApplyCall, ApplyAck, ack_dict}
use cognous_agent_control_pl.Bounded.Observation.{Clock}
use cognous_agent_control_pl.Bounded.Context.{effect_id_of}

-- The arguments of `execute`, and what it reads from outside: the time that stands for `now`, the
-- one identifier that it draws, and the clocks of its two observations.
pub record ExecuteCall : Type 0 where
  pub proposal : RuntimeProposal
  pub decision : RuntimeDecision
  pub adapter_id : String
  pub now : ℕ
  pub lose_ack : Bool
  pub partial : Bool
  pub uuid : String
  pub before : Clock
  pub after : Clock

abbrev pub denied : String → Exn
denied message = record { kind = permission_error; message = message }

unfoldable pub is_applied : ReconciliationOutcome → Bool
is_applied ReconciliationOutcome.applied = true
is_applied _ = false

unfoldable pub is_absent : ReconciliationOutcome → Bool
is_absent ReconciliationOutcome.observed_absent = true
is_absent _ = false

is_partial : ObservedState → Bool
is_partial ObservedState.partial = true
is_partial _ = false

unfoldable pub observed_partial : Option EffectObservation → Bool
unfolding is_partial
observed_partial none = false
observed_partial (some o) = is_partial o.state

-- How the attempt ends, by what `apply` returns or raises.
unfoldable pub failed_with : EffectAttempt → ExnKind → String → EffectAttempt
failed_with a timeout_error message = record a {
  status = AttemptStatus.unknown;
  error = some message;
}
failed_with a _ message = record a { status = AttemptStatus.failed; error = some message }

unfoldable pub finished : EffectAttempt → Bool → Result ApplyAck → EffectAttempt
unfolding failed_with
finished a partial (ok ack) = record a {
  status = if partial then AttemptStatus.partial else AttemptStatus.acknowledged;
  acknowledgement = ack_dict ack;
}
finished a partial (raise e) = failed_with a e.kind e.message

module _ (p : Platform) where
  unfoldable pub decision_effect_id : RuntimeProposal → Option AuthorizationBinding → String
  unfolding effect_id_of
  decision_effect_id q none =
      p.commitment (Committed.effect (p.commitment (Committed.proposal q)) none none)
  decision_effect_id q (some b) = effect_id_of p b

  unfoldable pub decision_of :
      String → ℕ → RuntimeProposal → List String → Option AuthorizationBinding → RuntimeDecision
  unfolding decision_effect_id
  decision_of uuid now q reasons binding = record {
    decision_id = uuid;
    effect_id = decision_effect_id q binding;
    result = if is_empty reasons then DecisionResult.authorized else DecisionResult.hold;
    reasons = reasons;
    decided_at = p.isoformat now;
    binding = if is_empty reasons then binding else none;
  }

  unfoldable pub authorize :
      RuntimeDecision
      → DecisionResult
      → Option AuthorizationBinding
      → Result (RuntimeDecision × AuthorizationBinding)
  unfolding effect_id_of
  authorize d DecisionResult.authorized (some b) =
      if d.effect_id == effect_id_of p b
      then ok (d, b)
      else raise (denied "decision effect identity is invalid")
  authorize d _ _ = raise (denied "decision is not authorized")

  -- The tests of the persisted decision, before anything is resolved again.
  unfoldable pub admit :
      RuntimeDecision → Option RuntimeDecision → Result (RuntimeDecision × AuthorizationBinding)
  unfolding authorize RuntimeDecision-discrete
  admit d none = raise (denied "decision is not the immutable persisted decision")
  admit d (some persisted) =
      if not (holds (RuntimeDecision-discrete persisted d))
      then raise (denied "decision is not the immutable persisted decision")
      else authorize persisted persisted.result persisted.binding

  unfoldable pub attempt_of :
      ExecuteCall → RuntimeDecision → AttemptStatus → List (String × Value) → EffectAttempt
  attempt_of c d status acknowledgement = record {
    attempt_id = c.uuid;
    effect_id = d.effect_id;
    decision_id = d.decision_id;
    started_at = p.isoformat c.now;
    status = status;
    acknowledgement = acknowledgement;
    error = none;
  }

unfoldable pub apply_call : ExecuteCall → RuntimeDecision → AuthorizationBinding → ApplyCall
apply_call c d b = record {
  effect_id = d.effect_id;
  grant_id = b.grant_id;
  max_effects = b.effective_max_effects;
  target = c.proposal.target;
  amount = c.proposal.amount;
  unit = c.proposal.unit;
  payload = c.proposal.payload;
  lose_ack = c.lose_ack;
  partial = c.partial;
}

-- `sorted(set(reasons))`, or that the binding changed.
unfoldable pub refusal_reasons : List String → List String
refusal_reasons [] = "authorization_binding_changed" ∷ []
refusal_reasons (x ∷ reasons) = sorted_set (x ∷ reasons)
