-- ===== src/Examples/Registered.antt =====
-- The refund, resolved by the synthetic resolver.
use cognous_agent_control_pl.Base.{
  some, [], ◌∷◌, ◌≡◌, true, refl, get, String-discrete, sorted, sorted_set, fstring,
}
use cognous_agent_control_pl.Base.Outcome.{ok, failing}
use cognous_agent_control_pl.Bounded.Models.{IdentityStatus, MandateStatus}
use cognous_agent_control_pl.Bounded.Documents.{AuthorityContext, Grant, parse}
use cognous_agent_control_pl.Bounded.Manifest.{
  find_action, find_tool, manifest_mismatches, starts_after, ended_by, needed_scopes,
  matching_permission,
}
use cognous_agent_control_pl.Bounded.Status.{resolve_role, stale}
use cognous_agent_control_pl.Bounded.Resolve.{resolve}
use cognous_agent_control_pl.Bounded.Context.{required_roles}
use cognous_agent_control_pl.Bounded.Synthetic.{Registry, synthetic, resolve-registered}
use cognous_agent_control_pl.Examples.Clock.{unary, read, digest}
use cognous_agent_control_pl.Examples.Refund.{refund_config, refund_proposal, refund_context}
use cognous_agent_control_pl.Examples.Authority.{
  refund_status, refund_identity, refund_mandate, refund_approval, policy_now, no_conflict,
  evidence_now, bank_roles, refund_binding,
}

abbrev refund_registry : Registry
refund_registry = record {
  contexts = ("context-1", refund_context) ∷ [];
  statuses = ("grant-1", refund_status) ∷ [];
  identities = ("agent", refund_identity) ∷ [];
  mandates = ("office|urn:role:issuer", refund_mandate) ∷ [];
  approvals = ("approval-1", refund_approval) ∷ [];
  policies = ("policy-1", policy_now) ∷ [];
  conflicts = ("requirement-1", no_conflict) ∷ [];
  evidence = ("evidence-1", evidence_now) ∷ [];
  role_mappings = ("bank", bank_roles) ∷ [];
}

registry-resolves :
    resolve unary refund_config (synthetic refund_registry "Txxxx") 4 refund_proposal
    ≡ ok ([], some refund_binding)
unfolding resolve failing manifest_mismatches find_action starts_after parse read ended_by
    needed_scopes find_tool digest resolve_role get required_roles stale String-discrete sorted
    matching_permission sorted_set synthetic fstring
registry-resolves = refl

resolve-registered_example :
    (c : AuthorityContext) × (g : Grant) × (i : IdentityStatus) × (m : MandateStatus) × (get
        "context-1" refund_registry.contexts
      ≡ some c)
    × (c.grant ≡ some g)
    × (refund_binding.grant_id ≡ g.grant_id)
    × (c.acting_identity ≡ "agent")
    × (get "agent" refund_registry.identities ≡ some i)
    × (i.authenticated ≡ true)
    × (get (fstring (g.issuer ∷ "|" ∷ g.issuer_role ∷ [])) refund_registry.mandates ≡ some m)
    × (m.mandate_valid ≡ true)
resolve-registered_example =
    resolve-registered unary refund_config refund_registry "Txxxx" 4 refund_proposal []
      refund_binding registry-resolves
