-- ===== src/Bounded/Workflow/Safety.antt =====
-- `execute`: the destination changes only for a persisted decision that is authorized and whose
-- binding is resolved again unchanged, and the history only grows.
use cognous_agent_control_pl.Base.{String, Option, none, some, List, [], ◌∷◌}
use cognous_agent_control_pl.Base.Outcome.{Result}
use cognous_agent_control_pl.Bounded.Models.{
  AuthorizationBinding, RuntimeDecision, AttemptStatus, EffectAttempt, EffectObservation,
  ReconciliationResult, BoundedRunRecord,
}
use cognous_agent_control_pl.Bounded.Documents.{Platform, Resolver}
use cognous_agent_control_pl.Bounded.Destination.{ApplyAck}
use cognous_agent_control_pl.Bounded.Store.Append.{Grows}
use cognous_agent_control_pl.Bounded.World.{World, Config}
use cognous_agent_control_pl.Bounded.World.History.{Adds, adds_rules}
use cognous_agent_control_pl.Bounded.Observation.Effects.{observe_and_reconcile-Adds}
use cognous_agent_control_pl.Bounded.Workflow.{
  refuse, revalidate, match_adapter, reconciled_existing, settle, send, dispatch, observe_first,
  perform, resolve_again, execute,
}
use cognous_agent_control_pl.Bounded.Decisions.{ExecuteCall}

module _ (p : Platform) (cfg : Config) (r : Resolver) where
  refuse-Adds :
      (c : ExecuteCall) (d : RuntimeDecision) (b : AuthorizationBinding) (reasons : List String)
      → Adds (refuse p cfg r c d b reasons)
  unfolding refuse
  refuse-Adds c d b reasons = search adds_rules

  revalidate-Adds :
      (c : ExecuteCall) (d : RuntimeDecision) (b : AuthorizationBinding)
      (found : List String × Option AuthorizationBinding)
      → Adds (revalidate p cfg r c d b found)
  unfolding revalidate
  revalidate-Adds c d b ([], some current) = search (adds_rules, refuse-Adds)
  revalidate-Adds c d b ([], none) = search (adds_rules, refuse-Adds)
  revalidate-Adds c d b (x ∷ reasons, o) = search (adds_rules, refuse-Adds)

  reconciled_existing-Adds :
      (c : ExecuteCall) (d : RuntimeDecision) (s : AttemptStatus) (o : Option EffectObservation)
      → Adds (reconciled_existing p cfg r c d s o)
  unfolding reconciled_existing
  reconciled_existing-Adds c d s o = search adds_rules

  settle-Adds :
      (c : ExecuteCall) (d : RuntimeDecision) (started : EffectAttempt) (ack : Result ApplyAck)
      → Adds (settle p cfg r c d started ack)
  unfolding settle
  settle-Adds c d started ack = search (adds_rules, observe_and_reconcile-Adds)

  send-Adds :
      (c : ExecuteCall) (d : RuntimeDecision) (b : AuthorizationBinding) → Adds (send p cfg r c d b)
  unfolding send
  send-Adds c d b = search (adds_rules, settle-Adds)

  dispatch-Adds :
      (c : ExecuteCall) (d : RuntimeDecision) (b : AuthorizationBinding)
      (prior : List EffectAttempt) (v : ReconciliationResult)
      → Adds (dispatch p cfg r c d b prior v)
  unfolding dispatch
  dispatch-Adds c d b prior v = search (adds_rules, reconciled_existing-Adds, send-Adds)

  match_adapter-Adds :
      (c : ExecuteCall) (b : AuthorizationBinding) → Adds (match_adapter p cfg r c b)
  unfolding match_adapter
  match_adapter-Adds c b = search adds_rules

  observe_first-Adds :
      (c : ExecuteCall) (d : RuntimeDecision) (b : AuthorizationBinding) (run : BoundedRunRecord)
      → Adds (observe_first p cfg r c d b run)
  unfolding observe_first
  observe_first-Adds c d b run = search (adds_rules, observe_and_reconcile-Adds, dispatch-Adds)

  perform-Adds :
      (c : ExecuteCall) (d : RuntimeDecision) (b : AuthorizationBinding)
      → Adds (perform p cfg r c d b)
  unfolding perform
  perform-Adds c d b = search (adds_rules, match_adapter-Adds, observe_first-Adds)

  resolve_again-Adds :
      (c : ExecuteCall) (admitted : RuntimeDecision × AuthorizationBinding)
      → Adds (resolve_again p cfg r c admitted)
  unfolding resolve_again
  resolve_again-Adds c admitted = search (adds_rules, revalidate-Adds, perform-Adds)

  pub execute-Adds : (c : ExecuteCall) → Adds (execute p cfg r c)
  unfolding execute
  execute-Adds c = search (adds_rules, resolve_again-Adds)

  -- A call, whether it returns or raises, only adds to the record: each list of the document begins
  -- with what it was, and a file without a valid document stays as it is.
  pub execute-Grows :
      (c : ExecuteCall) (w : World) → Grows w.records (execute p cfg r c w).1.records
  execute-Grows c w = (execute-Adds c).at w
