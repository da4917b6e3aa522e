-- ===== src/Examples/Sequences.antt =====
-- The refund executed twice.
use cognous_agent_control_pl.Base.{◌≤◌, some, List, [], ◌∷◌, ◌≡◌, refl, sym, arith, get}
use cognous_agent_control_pl.Bounded.Models.{AuthorizationBinding}
use cognous_agent_control_pl.Bounded.Documents.{Resolver}
use cognous_agent_control_pl.Bounded.Destination.{readable, empty_destination}
use cognous_agent_control_pl.Bounded.Destination.Laws.{committed, effects_of, empty-IsConsistent}
use cognous_agent_control_pl.Bounded.Destination.Once.{effect_at}
use cognous_agent_control_pl.Bounded.World.{world_of}
use cognous_agent_control_pl.Bounded.Decisions.{ExecuteCall}
use cognous_agent_control_pl.Bounded.Workflow.Sequence.{
  execute_all, execute_all-cap, execute_all-keeps,
}
use cognous_agent_control_pl.Examples.Clock.{unary}
use cognous_agent_control_pl.Examples.Refund.{refund_config}
use cognous_agent_control_pl.Examples.Authority.{refund_authority, refund_binding}
use cognous_agent_control_pl.Examples.Destinations.{refund_effect, refunded}
use cognous_agent_control_pl.Examples.Records.{refund_document}
use cognous_agent_control_pl.Examples.Runs.{refund_call, refund_world}

abbrev twice : List (Resolver × ExecuteCall)
twice = (refund_authority, refund_call) ∷ (refund_authority, refund_call) ∷ []

limited :
    (b : AuthorizationBinding)
    → some refund_binding ≡ some b
    → b.grant_id ≡ "grant-1"
    → b.effective_max_effects ≤ 1
limited b h g = let same : refund_binding ≡ b = cc in rw (sym same) (omega arith)

none_yet : committed "grant-1" (readable empty_destination) ≤ 1
unfolding committed effects_of
none_yet = omega arith

execute_all-cap_example :
    committed "grant-1" (execute_all unary refund_config twice refund_world).destination ≤ 1
execute_all-cap_example =
    execute_all-cap unary refund_config "grant-1" 1 twice refund_world empty-IsConsistent
      (limited, (limited, tt)) none_yet

refund_there :
    effect_at "effect:proposal:case-7/grant-1/r1" (readable refunded) ≡ some refund_effect
unfolding effect_at get
refund_there = refl

execute_all-keeps_example :
    effect_at "effect:proposal:case-7/grant-1/r1"
      (execute_all unary refund_config twice
        (world_of refund_document (readable refunded))).destination
    ≡ some refund_effect
execute_all-keeps_example =
    execute_all-keeps unary refund_config "effect:proposal:case-7/grant-1/r1" refund_effect twice
      (world_of refund_document (readable refunded)) refund_there
