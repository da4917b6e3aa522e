-- ===== src/Examples/Refund.antt =====
-- One declared refund and a proposal of it.
use cognous_agent_control_pl.Base.{true, false, some, none, [], ◌∷◌}
use cognous_agent_control_pl.Bounded.Models.{text, RuntimeProposal, PolicyVersion}
use cognous_agent_control_pl.Bounded.Documents.{
  Permission, Grant, AuthorityContext, ManifestAction, Manifest,
}
use cognous_agent_control_pl.Bounded.World.{Config}

abbrev pub refund_action : ManifestAction
refund_action = record {
  action_id = "refund-1";
  action_name = "refund";
  tool_name = some "refunds";
  target_policy = some (record { allow_any_target = false; allowed_targets = "case-7" ∷ [] });
  payload_policy = some (record {
    required_fields = "note" ∷ [];
    optional_fields = [];
    forbidden_fields = "card" ∷ [];
  });
  effect_limits = some (record { max_effects = some 1; max_amount = some 50; unit = some "USD" });
  authority_required = record { scope = "refunds:write"; required = true } ∷ [];
  authority_context = some (record {
    profile_ref = some "context-1";
    requirement_id = some "requirement-1";
    institution_id = some "bank";
    authority_domain = some "refunds";
    consequence_tier = some "low";
  });
  review_requirement =
      some (record { mode = some "human_review"; reviewer_role = some "reviewer" });
}

abbrev pub refund_manifest : Manifest
refund_manifest = record {
  manifest_version = some "1.1";
  manifest_id = some "manifest-1";
  actions = refund_action ∷ [];
  tools = record { tool_name = some "refunds"; adapter_id = some "adapter-1" } ∷ [];
}

abbrev pub refund_proposal : RuntimeProposal
refund_proposal = record {
  manifest_id = "manifest-1";
  manifest_version = "1.1";
  manifest_digest = "manifest";
  actor = "agent";
  principal = "clerk";
  action_id = "refund-1";
  adapter_id = "adapter-1";
  target = "case-7";
  payload = ("note", text "late delivery") ∷ [];
  payload_commitment = "payload";
  requested_permissions = "refunds:write" ∷ [];
  amount = 20;
  unit = "USD";
  effects = 1;
  authority_context_ref = some "context-1";
  requirement_id = some "requirement-1";
  risk_metadata = [];
  not_before = some "Tx";
  expires_at = some "Txxxxxxxxx";
  correlation_id = none;
  run_id = none;
  expected_side_effects = [];
  evidence_refs = [];
  tenant_id = none;
}

abbrev pub refund_permission : Permission
refund_permission = record {
  action = "refund";
  targets = "case-7" ∷ [];
  data_scopes = "refunds:write" ∷ [];
  max_amount = 30;
  unit = "USD";
  max_effects = 1;
}

abbrev pub small_permission : Permission
small_permission = record refund_permission { max_amount = 10 }

abbrev pub refund_policy : PolicyVersion
refund_policy = record { ref = "policy-1"; version = "v2" }

abbrev pub refund_grant : Grant
refund_grant = record {
  grant_id = "grant-1";
  revision = "r1";
  issuer = "office";
  issuer_role = "urn:role:issuer";
  issuance_record_ref = "issuance-1";
  status_ref = "status-1";
  requirement_id = "requirement-1";
  grantee = "clerk";
  acting_identity = "agent";
  tenant_id = none;
  not_before = "Tx";
  expires_at = "Txxxxxxxxx";
  permissions = small_permission ∷ refund_permission ∷ [];
  parent_grant_id = some "grant-0";
  policy_versions = refund_policy ∷ [];
  approval_refs = "approval-1" ∷ [];
}

abbrev pub refund_context : AuthorityContext
refund_context = record {
  context_id = "context-1";
  schema_version = "0.1.0";
  interface_status = "proposed_pending_governor_review";
  tenant_id = none;
  principal = "clerk";
  acting_identity = "agent";
  institution = record {
    institution_id = "bank";
    authority_domain = "refunds";
    authority_basis_ref = some "basis-1";
  };
  requirement = record {
    requirement_id = "requirement-1";
    consequence_tier = some "low";
    permissions = refund_permission ∷ [];
    approvals = record { role_id = "urn:role:reviewer"; independent_of_actor = true } ∷ [];
    evidence =
        record {
          obligation_id = "evidence-1";
          source_ref = "source-1";
          required = true;
          kind = "authorization";
          max_age_seconds = 60;
          unknown_behavior = some "hold_effect";
        }
        ∷ [];
  };
  grant = some refund_grant;
  precedence_refs = [];
}

abbrev pub refund_config : Config
refund_config = record {
  manifest = refund_manifest;
  status_max_age_seconds = 60;
  identity_max_age_seconds = 60;
  mandate_max_age_seconds = 60;
  approval_max_age_seconds = 60;
  clock_tolerance_seconds = 5;
  observation_policy = some (record { max_age_seconds = 60; clock_tolerance_seconds = 5 });
}
