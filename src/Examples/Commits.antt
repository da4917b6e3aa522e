-- ===== src/Examples/Commits.antt =====
-- The refund is committed, by the theorem.
use cognous_agent_control_pl.Base.{◌<◌, none, ◌≡◌, refl, get, arith}
use cognous_agent_control_pl.Bounded.Destination.{empty_destination, used}
use cognous_agent_control_pl.Bounded.Destination.Laws.{empty-IsConsistent}
use cognous_agent_control_pl.Bounded.Workflow.{execute}
use cognous_agent_control_pl.Bounded.Workflow.Commit.{Commits}
use cognous_agent_control_pl.Bounded.Workflow.Complete.{Stands, InTime, execute-Commits}
use cognous_agent_control_pl.Examples.Clock.{unary, unary-PrintsTime}
use cognous_agent_control_pl.Examples.Refund.{refund_config}
use cognous_agent_control_pl.Examples.Authority.{refund_authority, refund_binding, refund-resolves}
use cognous_agent_control_pl.Examples.Records.{refund_decision, refund_document}
use cognous_agent_control_pl.Examples.Runs.{
  refund_call, refund_world, policy, persisted, effect_named,
}

refund-Stands :
    Stands unary refund_config refund_authority refund_call refund_binding refund_document
refund-Stands = record {
  persisted = persisted;
  authorized = refl;
  bound = refl;
  effect_id = effect_named;
  current = refund-resolves;
  adapter = refl;
  untried = refl;
}

refund-InTime : InTime unary refund_config refund_authority refund_call policy
refund-InTime = record { there = refl; early = omega arith; recent = omega arith }

not_there : get refund_decision.effect_id empty_destination.effects ≡ none
unfolding get
not_there = refl

has_room : used refund_binding.grant_id empty_destination < refund_binding.effective_max_effects
unfolding used get
has_room = omega arith

execute-Commits_example :
    Commits unary refund_config refund_authority refund_call refund_decision refund_binding
      empty_destination
      (execute unary refund_config refund_authority refund_call refund_world)
execute-Commits_example =
    execute-Commits unary refund_config refund_authority refund_call unary-PrintsTime refund_binding
      policy refund_document empty_destination refund-Stands refund-InTime empty-IsConsistent
      not_there has_room
