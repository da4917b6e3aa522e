-- ===== src/Examples/Inputs.antt =====
-- The refusal inputs and the roles of the refund.
use cognous_agent_control_pl.Base.{
  true, some, [], ◌∷◌, ◌≡◌, refl, All, get, mem, starts_with, fstring,
}
use cognous_agent_control_pl.Bounded.Status.{
  resolve_role, is_active_grant, is_active_policy, is_active_approval, is_current,
}
use cognous_agent_control_pl.Bounded.Status.Roles.{StandsFor, resolve_role-StandsFor}
use cognous_agent_control_pl.Bounded.Changed.{changed_inputs}
use cognous_agent_control_pl.Bounded.Changed.Unlisted.{
  PolicyKept, ContextKept, changed_inputs-unlisted,
}
use cognous_agent_control_pl.Examples.Clock.{unary, digest}
use cognous_agent_control_pl.Examples.Refund.{refund_proposal, refund_context}
use cognous_agent_control_pl.Examples.Authority.{refund_authority, refund_binding, bank_roles}

nothing_changed : changed_inputs unary refund_authority refund_proposal refund_binding ≡ []
unfolding changed_inputs digest fstring is_active_grant is_active_policy is_active_approval
    is_current
nothing_changed = refl

changed_inputs-unlisted_example :
    All
      (λ item. PolicyKept item (refund_authority.policy_status item.ref))
      refund_binding.policy_versions
    × ContextKept unary refund_authority refund_binding (some refund_context)
changed_inputs-unlisted_example =
    changed_inputs-unlisted unary refund_authority refund_proposal refund_binding nothing_changed

reviewer-resolves :
    resolve_role (some "reviewer") ("urn:role:reviewer" ∷ []) "bank" (some bank_roles)
    ≡ some "urn:role:reviewer"
unfolding resolve_role get
reviewer-resolves = refl

resolve_role-StandsFor_example :
    (starts_with "urn:role:reviewer" "urn:" ≡ true)
    × (mem "urn:role:reviewer" ("urn:role:reviewer" ∷ []) ≡ true)
    × StandsFor (some "reviewer") "bank" (some bank_roles) "urn:role:reviewer"
resolve_role-StandsFor_example =
    resolve_role-StandsFor (some "reviewer") ("urn:role:reviewer" ∷ []) "bank" (some bank_roles)
      "urn:role:reviewer" reviewer-resolves
