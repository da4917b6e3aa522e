-- ===== src/Bounded/Workflow/Complete.antt =====
-- `execute`: where nothing stands in the way, the effect is committed.
use cognous_agent_control_pl.Base.{◌+◌, ◌*◌, ◌≤◌, ◌<◌, none, some, [], ◌≡◌, ◌∙◌, get}
use cognous_agent_control_pl.Base.Outcome.{ok}
use cognous_agent_control_pl.Bounded.Models.{
  AuthorizationBinding, DecisionResult, RuntimeDecision, ObservationPolicy,
}
use cognous_agent_control_pl.Bounded.Documents.{Platform, PrintsTime, Resolver, second}
use cognous_agent_control_pl.Bounded.Destination.{DestinationState, readable, used}
use cognous_agent_control_pl.Bounded.Destination.Laws.{IsConsistent}
use cognous_agent_control_pl.Bounded.Store.{Document, load, lookup_decision, find_decision}
use cognous_agent_control_pl.Bounded.World.{Config, world_of}
use cognous_agent_control_pl.Bounded.Resolve.{resolve}
use cognous_agent_control_pl.Bounded.Context.{effect_id_of}
use cognous_agent_control_pl.Bounded.Workflow.{observe_first, perform, resolve_again, execute}
use cognous_agent_control_pl.Bounded.Decisions.{ExecuteCall, apply_call}
use cognous_agent_control_pl.Bounded.Workflow.Perform.{attempts_of}
use cognous_agent_control_pl.Bounded.Workflow.Refuse.{admits}
use cognous_agent_control_pl.Bounded.Workflow.Commit.{
  Commits, send-Commits, dispatch_sends, same_revalidates, same_adapter, observes_absent,
}

module _ (p : Platform) (cfg : Config) (r : Resolver) (c : ExecuteCall) where
  -- An authorized decision that the record has, and that still stands.
  pub record Stands (b : AuthorizationBinding) (doc : Document) : Type 0 where
    pub persisted : find_decision c.decision.decision_id doc.run.decisions ≡ some c.decision
    pub authorized : c.decision.result ≡ DecisionResult.authorized
    pub bound : c.decision.binding ≡ some b
    pub effect_id : c.decision.effect_id ≡ effect_id_of p b
    pub current : resolve p cfg r c.now c.proposal ≡ ok ([], some b)
    pub adapter : c.adapter_id ≡ b.adapter_id
    pub untried : attempts_of c.decision.effect_id doc ≡ []

  -- The observation policy, and a clock that agrees with it.
  pub record InTime (policy : ObservationPolicy) : Type 0 where
    pub there : cfg.observation_policy ≡ some policy
    pub early : c.before.observed ≤ c.now + policy.clock_tolerance_seconds * second
    pub recent : c.now ≤ c.before.observed + policy.max_age_seconds * second

  reaches_perform :
      (b : AuthorizationBinding) (doc : Document) (s : DestinationState)
      → Stands b doc
      → execute p cfg r c (world_of doc (readable s))
        ≡ perform p cfg r c c.decision b (world_of doc (readable s))
  unfolding execute resolve_again lookup_decision
  reaches_perform b doc s v = rw (
    v.persisted,
    admits p cfg r c b v.authorized v.bound v.effect_id,
    v.current,
    same_revalidates p cfg r c c.decision b (world_of doc (readable s)),
  )

  reaches_observe :
      (d : RuntimeDecision) (b : AuthorizationBinding) (doc : Document) (s : DestinationState)
      → c.adapter_id ≡ b.adapter_id
      → perform p cfg r c d b (world_of doc (readable s))
        ≡ observe_first p cfg r c d b doc.run (world_of doc (readable s))
  unfolding perform load
  reaches_observe d b doc s h = rw (same_adapter p cfg r c b (world_of doc (readable s)) h)

  -- A call with a persisted, authorized decision that still stands, for the bound adapter, with no
  -- attempt before, on a readable consistent destination without the effect and with room for it,
  -- and with a clock that the observation policy tolerates, returns and commits the effect. The
  -- attempt is acknowledged, or partial if that is asked for, or unknown if the acknowledgement is
  -- lost.
  pub execute-Commits :
      (times : PrintsTime p) (b : AuthorizationBinding) (policy : ObservationPolicy)
      (doc : Document) (s : DestinationState)
      → Stands b doc
      → InTime policy
      → IsConsistent s
      → get c.decision.effect_id s.effects ≡ none
      → used b.grant_id s < b.effective_max_effects
      → Commits p cfg r c c.decision b s (execute p cfg r c (world_of doc (readable s)))
  unfolding observe_first
  execute-Commits times b policy doc s v t ok_state absent has_room =
      let d = c.decision in
      let (seen, doc', e, result, observed) =
        observes_absent p cfg r c d.effect_id c.now times policy c.before doc s t.there t.early
          t.recent ok_state absent in
      let (a, o, doc'', sent, status) =
        send-Commits p cfg r c d b doc' s (unfold apply_call in absent)
          (unfold apply_call in has_room) in
      (
        a,
        o,
        doc'',
        reaches_perform b doc s v
            ∙ (reaches_observe d b doc s v.adapter
                ∙ rw
                    (
                      e,
                      v.untried,
                      dispatch_sends p cfg r c d b seen d.effect_id c.before.observed result
                          observed,
                    )
                    sent),
        status,
      )
