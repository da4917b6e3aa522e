-- ===== src/LocalAuthority/Claim.antt =====
-- src/agent_control_plane/local_authority_effect.py: `_materialize_under_handoff` and its two public
-- forms.
pub mod Carried
pub mod Issued
pub mod Provision
use cognous_agent_control_pl.Base.{
  ℕ, String, Bool, true, false, Option, none, some, List, [], ◌∷◌, ◌||◌, ◌&&◌, not, leb, ◌==◌,
  opt_eq, is_none, get_or, holds, if◌then◌else◌, Dict, fstring, max, min, is_empty,
}
use cognous_agent_control_pl.Base.Outcome.{
  value_error, permission_error, Result, ok, raise, bind, Exec, pure, throw, lift, ◌>>=◌, ◌>>◌,
}
use cognous_agent_control_pl.Bounded.Models.{
  RuntimeProposal, AuthorizationBinding, AuthorizationBinding-discrete, DecisionResult,
  RuntimeDecision, RuntimeDecision-discrete,
}
use cognous_agent_control_pl.Bounded.Documents.{Platform, Grant, Institution, Resolver, parse}
use cognous_agent_control_pl.Bounded.World.{Config}
use cognous_agent_control_pl.Bounded.Store.{RecordFile, lookup_decision}
use cognous_agent_control_pl.Bounded.Observation.{Moment}
use cognous_agent_control_pl.Bounded.Context.{text_or_empty}
use cognous_agent_control_pl.Bounded.Resolve.{resolve}
use cognous_agent_control_pl.Bounded.Decisions.{denied}
use cognous_agent_control_pl.LocalAuthority.Models.{
  ClaimContent, LocalExecutionClaim, OperationPayload, AuthorityState, ClaimDocument,
  AuthoritySnapshot,
}
use cognous_agent_control_pl.LocalAuthority.Projections.{
  refuse_if, Validated, validate_issuance_snapshot,
}
use cognous_agent_control_pl.LocalAuthority.Content.{
  IssueCall, interval_of, operation_payload, content_of, claim_of,
}

-- The resolver with the two methods of the hand-off, if it has both. While the hand-off is held its
-- answers do not change.
pub record AuthoritySource : Type 0 where
  pub resolver : Resolver
  pub snapshot_reader : Option (String → Option AuthoritySnapshot)

-- The records of the workflow, and the local store that claims are provisioned to.
pub record Issuing (S : Type 0) : Type 0 where
  pub records : RecordFile
  pub sink : S

module _ (p : Platform) (claim_commitment : ClaimDocument → String) where
  -- The tests of the persisted decision.
  unfoldable pub authorized_binding :
      RuntimeDecision → DecisionResult → Option AuthorizationBinding → Result AuthorizationBinding
  authorized_binding d DecisionResult.authorized (some b) = ok b
  authorized_binding d _ _ = raise (denied "decision is not authorized")

  unfoldable pub admit_issue :
      RuntimeDecision → Option RuntimeDecision → Result AuthorizationBinding
  unfolding authorized_binding refuse_if RuntimeDecision-discrete
  admit_issue d none = raise (denied "decision is not the immutable persisted decision")
  admit_issue d (some persisted) =
      refuse_if (not (holds (RuntimeDecision-discrete persisted d)))
        "decision is not the immutable persisted decision" (authorized_binding d d.result d.binding)

  -- What is resolved now must be the binding of the decision.
  unfoldable pub still_bound :
      AuthorizationBinding → List String × Option AuthorizationBinding → Result AuthorizationBinding
  unfolding AuthorizationBinding-discrete
  still_bound b ([], some current) =
      if holds (AuthorizationBinding-discrete current b)
      then ok current
      else raise (denied "authorization-critical inputs changed before claim issuance")
  still_bound b _ = raise (denied "authorization-critical inputs changed before claim issuance")

  abbrev pub snapshot_of : Option AuthoritySnapshot → Result AuthoritySnapshot
  snapshot_of none = raise (denied "coherent authority snapshot unavailable at claim issuance")
  snapshot_of (some x) = ok x

  module _ (cfg : Config) (source : AuthoritySource) (c : IssueCall) where
    -- Under the hand-off, up to the claim.
    unfoldable pub issue :
        ℕ → AuthorizationBinding → (String → Option AuthoritySnapshot) → Result LocalExecutionClaim
    unfolding still_bound validate_issuance_snapshot interval_of operation_payload content_of
        claim_of
    issue now b snapshot_reader = bind (resolve p cfg source.resolver now c.proposal) (λ found.
        bind (still_bound b found) (λ current.
          bind (snapshot_of (snapshot_reader (text_or_empty c.proposal.authority_context_ref)))
            (λ snapshot.
              bind (validate_issuance_snapshot p cfg.clock_tolerance_seconds now b snapshot) (λ v.
                bind (interval_of p claim_commitment c now v.grant) (λ interval.
                  bind (operation_payload p claim_commitment c.proposal b v.context.institution)
                    (λ payload. ok (
                      claim_of p claim_commitment
                        (content_of p claim_commitment c now current v interval payload))))))))

    -- The tests before the hand-off, and the hand-off.
    unfoldable pub materialize_at :
        ℕ
        → Option RuntimeDecision
        → Option (String → Option AuthoritySnapshot)
        → Result LocalExecutionClaim
    unfolding admit_issue issue
    materialize_at now persisted none =
        bind (admit_issue c.decision persisted)
          (λ b. raise (denied "resolver does not implement trusted authority-effect handoff"))
    materialize_at now persisted (some snapshot_reader) =
        bind (admit_issue c.decision persisted) (λ b. issue now b snapshot_reader)

    module _ {S : Type 0} where
      abbrev pub on_issuing_records : {A : Type 0} → Exec RecordFile A → Exec (Issuing S) A
      on_issuing_records m w = let (r, f) = m w.records in (r, record w { records = f })

      abbrev pub on_sink : {A : Type 0} → Exec S A → Exec (Issuing S) A
      on_sink m w = let (r, s) = m w.sink in (r, record w { sink = s })

      -- `materialize_local_execution_claim`: `_materialize_under_handoff` with nothing to provision.
      unfoldable pub materialize : Moment → Exec (Issuing S) LocalExecutionClaim
      unfolding materialize_at
      materialize (Moment.naive t) = throw value_error "claim issuance time must be timezone-aware"
      materialize (Moment.aware now) = do
        persisted ← on_issuing_records (lookup_decision c.decision.decision_id)
        lift (materialize_at now persisted source.snapshot_reader)

      -- `provision_local_execution_claim`
      unfoldable pub provision_claim :
          (LocalExecutionClaim → Exec S Unit) → Exec (Issuing S) LocalExecutionClaim
      unfolding materialize
      provision_claim provision = do
        claim ← materialize c.now
        on_sink (provision claim)
        pure claim
