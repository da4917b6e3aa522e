-- ===== src/Examples/Runs.antt =====
-- The theorems of the workflow, run on the refund.
use cognous_agent_control_pl.Base.{
  String, true, false, Option, some, none, List, [], ◌∷◌, ◌≡◌, ◌≢◌, ◌⊎◌, ◌↔◌, refl, get, arith,
  if◌then◌else◌, String-discrete, ℕ_discrete, is_blank, put, sorted, sorted_set,
}
use cognous_agent_control_pl.Base.Outcome.{Exn, permission_error, Result, ok, raise, failing}
use cognous_agent_control_pl.Bounded.Models.{
  RuntimeDecision, EffectObservation, ObservedState, ObservationPolicy, ReconciliationOutcome,
  ReconciliationResult, EffectTimeRefusal, AuthorizationBinding,
}
use cognous_agent_control_pl.Bounded.Documents.{Resolver, parse}
use cognous_agent_control_pl.Bounded.Destination.{
  observe, apply, commit, used, readable, empty_destination, observation_of,
}
use cognous_agent_control_pl.Bounded.Destination.Laws.{FileIsConsistent, empty-IsConsistent}
use cognous_agent_control_pl.Bounded.Store.{
  append, load, stored, Entry, add, lookup_decision, find_decision,
}
use cognous_agent_control_pl.Bounded.Store.Append.{Grows}
use cognous_agent_control_pl.Bounded.World.{World, world_of}
use cognous_agent_control_pl.Bounded.World.Untouched.{Unless}
use cognous_agent_control_pl.Bounded.Observation.{
  observation_reasons, Moment, Clock, observe_and_reconcile, reconcile_observation,
}
use cognous_agent_control_pl.Bounded.Observation.Laws.{IsAcceptable}
use cognous_agent_control_pl.Bounded.Observation.Reconcile.{reconcile_observation-accepts}
use cognous_agent_control_pl.Bounded.Observation.Effects.{
  truth, reconcile-harmless, reconcile-truth,
}
use cognous_agent_control_pl.Bounded.Resolve.{resolve}
use cognous_agent_control_pl.Bounded.Context.{effect_id_of, required_roles}
use cognous_agent_control_pl.Bounded.Status.{resolve_role, stale}
use cognous_agent_control_pl.Bounded.Manifest.{
  find_action, find_tool, manifest_mismatches, starts_after, ended_by, needed_scopes,
  matching_permission,
}
use cognous_agent_control_pl.Bounded.Resolve.Authorized.{IsAuthorized, resolve-IsAuthorized}
use cognous_agent_control_pl.Bounded.Changed.{changed_inputs}
use cognous_agent_control_pl.Bounded.Workflow.{decide, execute}
use cognous_agent_control_pl.Bounded.Decisions.{ExecuteCall}
use cognous_agent_control_pl.Bounded.Workflow.Decide.{
  and_entry, Authorizes, Holds, decide-IsDecided, decide-lookup,
}
use cognous_agent_control_pl.Bounded.Workflow.Execute.{
  IsEffected, execute-IsEffected, execute-FileIsConsistent,
}
use cognous_agent_control_pl.Bounded.Workflow.Refuse.{execute-refuses}
use cognous_agent_control_pl.Bounded.Workflow.Safety.{execute-Grows}
use cognous_agent_control_pl.Examples.Clock.{unary, unary-PrintsTime, digest, read, print, marks}
use cognous_agent_control_pl.Examples.Refund.{refund_config, refund_proposal}
use cognous_agent_control_pl.Examples.Authority.{refund_authority, refund_binding, refund-resolves}
use cognous_agent_control_pl.Examples.Destinations.{refunded, refunded-IsConsistent}
use cognous_agent_control_pl.Examples.Records.{refund_decision, new_document, refund_document}

abbrev pub refund_call : ExecuteCall
refund_call = record {
  proposal = refund_proposal;
  decision = refund_decision;
  adapter_id = "adapter-1";
  now = 4;
  lose_ack = false;
  partial = false;
  uuid = "attempt-1";
  before = record { observed = 4; reconciled = 5 };
  after = record { observed = 5; reconciled = 6 };
}

abbrev pub refund_world : World
refund_world = world_of refund_document (readable empty_destination)

abbrev no_reasons : List String
no_reasons = []

resolve-IsAuthorized_example :
    (no_reasons ≡ [])
    × IsAuthorized unary refund_config refund_authority 4 refund_proposal refund_binding
resolve-IsAuthorized_example =
    resolve-IsAuthorized unary refund_config refund_authority 4 refund_proposal [] refund_binding
      refund-resolves

execute-IsEffected_example :
    Unless
      (IsEffected unary refund_config refund_authority refund_call
        (stored refund_document)
        (readable empty_destination))
      (execute unary refund_config refund_authority refund_call)
      refund_world
execute-IsEffected_example =
    execute-IsEffected unary refund_config refund_authority refund_call refund_world

execute-FileIsConsistent_example :
    FileIsConsistent
      (execute unary refund_config refund_authority refund_call refund_world).1.destination
execute-FileIsConsistent_example =
    execute-FileIsConsistent unary refund_config refund_authority refund_call refund_world
      empty-IsConsistent

execute-Grows_example :
    Grows
      (stored refund_document)
      (execute unary refund_config refund_authority refund_call refund_world).1.records
execute-Grows_example = execute-Grows unary refund_config refund_authority refund_call refund_world

decide-IsDecided_example :
    ((e : Exn) × (resolve unary refund_config refund_authority 4 refund_proposal ≡ raise e)
      × (decide unary refund_config refund_authority refund_proposal 4 "decision-1"
            (world_of new_document (readable empty_destination))
          ≡ (raise e, world_of new_document (readable empty_destination))))
    ⊎ ((d : RuntimeDecision) × (decide unary refund_config refund_authority refund_proposal 4
            "decision-1"
            (world_of new_document (readable empty_destination))
          ≡ (
            ok d,
            world_of (and_entry (Entry.decision d) new_document) (readable empty_destination),
          ))
        × (d.decision_id ≡ "decision-1")
        × (Authorizes unary refund_config refund_authority refund_proposal 4 "decision-1" d
            ⊎ Holds unary refund_config refund_authority refund_proposal 4 "decision-1" d))
decide-IsDecided_example =
    decide-IsDecided unary refund_config refund_authority refund_proposal 4 "decision-1"
      new_document (readable empty_destination)

decide-lookup_example :
    (d : RuntimeDecision) × ((decide unary refund_config refund_authority refund_proposal 4
        "decision-1"
        (world_of new_document (readable empty_destination))).0
      ≡ ok d)
    × ((lookup_decision "decision-1"
          (decide unary refund_config refund_authority refund_proposal 4 "decision-1"
            (world_of new_document (readable empty_destination))).1.records).0
        ≡ ok (some d))
decide-lookup_example =
    decide-lookup unary refund_config refund_authority refund_proposal 4 "decision-1" new_document
      (readable empty_destination) [] (some refund_binding) refund-resolves refl

-- The status of the grant is gone between the decision and the effect.
abbrev lost_authority : Resolver
lost_authority = record refund_authority { grant_status = λ k. none }

lost-resolves :
    resolve unary refund_config lost_authority 4 refund_proposal
    ≡ ok ("grant_not_active" ∷ [], none)
unfolding resolve failing manifest_mismatches find_action starts_after parse read ended_by
    needed_scopes find_tool digest resolve_role get required_roles stale String-discrete sorted
    matching_permission sorted_set
lost-resolves = refl

pub persisted : find_decision "decision-1" refund_document.run.decisions ≡ some refund_decision
unfolding find_decision
persisted = refl

pub effect_named : refund_decision.effect_id ≡ effect_id_of unary refund_binding
unfolding effect_id_of digest
effect_named = refl

some_reason :
    {b : AuthorizationBinding}
    → ◌≢◌ {A = List String × Option AuthorizationBinding}
        ("grant_not_active" ∷ [], none)
        ([], some b)
some_reason h = cc

execute-refuses_example :
    (e : Exn) × (x : EffectTimeRefusal) × (execute unary refund_config lost_authority refund_call
        refund_world
      ≡ (
        raise e,
        world_of (and_entry (Entry.refusal x) refund_document) (readable empty_destination),
      ))
    × (e.kind ≡ permission_error)
    × (x.decision_id ≡ "decision-1")
    × (x.effect_id ≡ "effect:proposal:case-7/grant-1/r1")
    × (x.reasons ≢ [])
    × (x.changed_inputs ≡ changed_inputs unary lost_authority refund_proposal refund_binding)
execute-refuses_example =
    execute-refuses unary refund_config lost_authority refund_call refund_document
      (readable empty_destination) refund_binding ("grant_not_active" ∷ [], none) persisted refl
      refl effect_named lost-resolves some_reason

abbrev clock : Clock
clock = record { observed = 6; reconciled = 7 }

abbrev effect_name : String
effect_name = "effect:proposal:case-7/grant-1/r1"

reconcile-harmless_example :
    ((observe_and_reconcile unary refund_config effect_name none clock refund_world).1.destination
      ≡ readable empty_destination)
    × Grows
        (stored refund_document)
        (observe_and_reconcile unary refund_config effect_name none clock refund_world).1.records
    × ((v : ReconciliationResult)
        → (observe_and_reconcile unary refund_config effect_name none clock refund_world).0 ≡ ok v
        → (v.retry_eligible ≡ false) × (v.result ≢ ReconciliationOutcome.safe_to_retry))
reconcile-harmless_example =
    reconcile-harmless unary refund_config effect_name none clock refund_world

abbrev pub policy : ObservationPolicy
policy = record { max_age_seconds = 60; clock_tolerance_seconds = 5 }

reconcile-truth_example :
    (v : ReconciliationResult) × ((observe_and_reconcile unary refund_config effect_name
        (some (Moment.aware 4))
        clock
        (world_of refund_document (readable refunded))).0
      ≡ ok v)
    × (v.result ≡ truth (get effect_name refunded.effects))
    × (v.observation_accepted ≡ true)
    × (v.observation ≡ some (observation_of unary effect_name 6 (get effect_name refunded.effects)))
reconcile-truth_example =
    reconcile-truth unary unary-PrintsTime refund_config effect_name 4 policy clock refund_document
      refunded refl (omega arith) (omega arith) refunded-IsConsistent

abbrev absent_observation : EffectObservation
absent_observation = record {
  effect_id = effect_name;
  observed_at = some "Txxxxxx";
  state = ObservedState.absent;
  destination_state = [];
}

abbrev reconciled_absent : Result ReconciliationResult × World
reconciled_absent =
    reconcile_observation unary refund_config effect_name absent_observation (some (Moment.aware 4))
      7 refund_world

reconcile_observation-accepts_example :
    (v : ReconciliationResult) × (reconciled_absent.0 ≡ ok v)
    × (reconciled_absent.1.destination ≡ readable empty_destination)
    × ((v.observation_accepted ≡ true)
        ↔ IsAcceptable unary refund_config effect_name absent_observation (some (Moment.aware 4)))
    × ((v.result ≡ ReconciliationOutcome.applied) ↔ (
        IsAcceptable unary refund_config effect_name absent_observation (some (Moment.aware 4))
        × (ObservedState.absent ≡ ObservedState.applied)))
    × ((v.result ≡ ReconciliationOutcome.observed_absent) ↔ (
        IsAcceptable unary refund_config effect_name absent_observation (some (Moment.aware 4))
        × (ObservedState.absent ≡ ObservedState.absent)))
    × (v.retry_eligible ≡ false)
    × (reconciled_absent.1.records
        ≡ stored (record {
          run = add (Entry.reconciliation v) (
              if v.observation_accepted
              then add (Entry.observation absent_observation) refund_document.run
              else refund_document.run);
          extensions = [];
        }))
reconcile_observation-accepts_example =
    reconcile_observation-accepts unary refund_config effect_name (some (Moment.aware 4))
      absent_observation 7 refund_document (readable empty_destination)

-- The run of the refund commits it.
refund-lands :
    (execute unary refund_config refund_authority refund_call refund_world).1.destination
    ≡ readable refunded
unfolding execute resolve lookup_decision String-discrete ℕ_discrete digest manifest_mismatches
    failing find_action starts_after parse read ended_by needed_scopes find_tool resolve_role get
    required_roles stale sorted matching_permission sorted_set find_decision append add observe
    apply load print marks is_blank put commit used observation_reasons observe_and_reconcile
refund-lands = refl
