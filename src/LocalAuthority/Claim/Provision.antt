-- ===== src/LocalAuthority/Claim/Provision.antt =====
-- src/agent_control_plane/local_authority_effect.py: `provision_local_execution_claim` as a whole.
use cognous_agent_control_pl.Base.{ℕ, String, true, Option, ◌≡◌, ◌⊎◌, inl, inr, refl, ap, ◌∙◌}
use cognous_agent_control_pl.Base.Outcome.{
  Exn, Result, ok, raise, bind, Exec, pure, lift, continue, ◌>>◌, Result-cases,
}
use cognous_agent_control_pl.Bounded.Models.{RuntimeDecision}
use cognous_agent_control_pl.Bounded.Documents.{Platform}
use cognous_agent_control_pl.Bounded.World.{Config}
use cognous_agent_control_pl.Bounded.Store.{lookup_decision}
use cognous_agent_control_pl.Bounded.Observation.{Moment}
use cognous_agent_control_pl.Bounded.World.History.{lookup_decision-keeps}
use cognous_agent_control_pl.Bounded.Workflow.Admission.{lookup-ok}
use cognous_agent_control_pl.LocalAuthority.Models.{LocalExecutionClaim, ClaimDocument}
use cognous_agent_control_pl.LocalAuthority.Content.{IssueCall, verify_claim}
use cognous_agent_control_pl.LocalAuthority.Claim.{
  AuthoritySource, Issuing, on_sink, materialize_at, materialize, provision_claim,
}
use cognous_agent_control_pl.LocalAuthority.Claim.Issued.{
  IsIssued, IsIssued-verifies, materialize_at-IsIssued,
}

module _ (p : Platform) (commit : ClaimDocument → String) (cfg : Config) (source : AuthoritySource)
    (c : IssueCall) {S : Type 0} where
  -- A claim for the call: at an aware time, backed by the records, and one that verifies.
  pub record Issues (w : Issuing S) (x : LocalExecutionClaim) : Type 0 where
    pub now : ℕ
    pub aware : c.now ≡ Moment.aware now
    pub issued : IsIssued p commit cfg source c now w.records x
    pub verifies : verify_claim p commit x ≡ true

  -- What is looked up decides whether a claim is made; nothing is written.
  looked_up :
      (now : ℕ) (w : Issuing S) (o : Result (Option RuntimeDecision))
      → c.now ≡ Moment.aware now
      → (lookup_decision c.decision.decision_id w.records).0 ≡ o
      → ((e : Exn) × (bind o (λ persisted.
              materialize_at p commit cfg source c now persisted source.snapshot_reader)
            ≡ raise e))
        ⊎ ((x : LocalExecutionClaim) × (bind o (λ persisted.
                materialize_at p commit cfg source c now persisted source.snapshot_reader)
              ≡ ok x)
            × Issues w x)
  looked_up now w (raise e) aware h = inl (e, refl)
  looked_up now w (ok o) aware h =
      elim (Result-cases (materialize_at p commit cfg source c now o source.snapshot_reader)) [
        | inr (e, raised) ↦ inl (e, raised)
        | inl (x, made) ↦
            let (d, readable, found) = lookup-ok c.decision.decision_id w.records o h in
            let issued =
              materialize_at-IsIssued p commit cfg source c now d w.records o source.snapshot_reader
                x readable found refl made in
            inr (
              x,
              made,
              record {
                now = now;
                aware = aware;
                issued = issued;
                verifies = IsIssued-verifies p commit cfg source c now w.records x issued;
              },
            )
      ]

  continue-lift :
      (w : Issuing S) (o : Result (Option RuntimeDecision))
      (f : Option RuntimeDecision → Result LocalExecutionClaim)
      → continue o (λ a. lift (f a)) w ≡ (bind o f, w)
  continue-lift w (ok o) f = refl
  continue-lift w (raise e) f = refl

  continue-pure :
      (w : Issuing S) (x : LocalExecutionClaim) (r : Result Unit)
      → continue r (λ _. pure x) w ≡ (bind r (λ _. ok x), w)
  continue-pure w x (ok u) = refl
  continue-pure w x (raise e) = refl

  materialize-aware :
      (now : ℕ) (w : Issuing S)
      → materialize p commit cfg source c (Moment.aware now) w ≡ (
        bind (lookup_decision c.decision.decision_id w.records).0 (λ persisted.
            materialize_at p commit cfg source c now persisted source.snapshot_reader),
        w,
      )
  unfolding materialize
  materialize-aware now w =
      rw (lookup_decision-keeps c.decision.decision_id w.records)
        (continue-lift w (lookup_decision c.decision.decision_id w.records).0 _)

  materialize-Issues :
      (w : Issuing S) (t : Moment)
      → c.now ≡ t
      → ((e : Exn) × (materialize p commit cfg source c t w ≡ (raise e, w)))
        ⊎ ((x : LocalExecutionClaim) × (materialize p commit cfg source c t w ≡ (ok x, w))
            × Issues w x)
  unfolding materialize
  materialize-Issues w (Moment.naive t) h = inl (_, refl)
  materialize-Issues w (Moment.aware now) h =
      elim (looked_up now w (lookup_decision c.decision.decision_id w.records).0 h refl) [
        | inl (e, raised) ↦ inl (e, materialize-aware now w ∙ ap (λ r. (r, w)) raised)
        | inr (x, made, issues) ↦ inr (x, materialize-aware now w ∙ ap (λ r. (r, w)) made, issues)
      ]

  abbrev hand_on :
      (LocalExecutionClaim → Exec S Unit)
      → LocalExecutionClaim
      → Exec (Issuing S) LocalExecutionClaim
  hand_on provision claim = do on_sink p commit cfg source c (provision claim); pure claim

  -- Handing a decision to a local store raises and changes nothing, or makes one claim at an aware
  -- time, from a readable record that holds this very authorized decision, from a binding that the
  -- proposal still resolves to and an accepted snapshot, for an interval inside all given ones that is
  -- not empty or over; the claim carries the decision, the grant, the operation, the accepted state and
  -- the interval, and verifies, the store is given it once, and the call returns it unless the store
  -- raises.
  pub provision_claim-Issues :
      (provision : LocalExecutionClaim → Exec S Unit) (w : Issuing S)
      → ((e : Exn) × (provision_claim p commit cfg source c provision w ≡ (raise e, w)))
        ⊎ ((x : LocalExecutionClaim) × Issues w x
            × (provision_claim p commit cfg source c provision w ≡ (
              bind (provision x w.sink).0 (λ _. ok x),
              record w { sink = (provision x w.sink).1 },
            )))
  unfolding provision_claim
  provision_claim-Issues provision w = elim (materialize-Issues w c.now refl) [
    | inl (e, raised) ↦ inl (e, ap (λ r. continue r.0 (hand_on provision) r.1) raised)
    | inr (x, made, issues) ↦ inr (
      x,
      issues,
      ap (λ r. continue r.0 (hand_on provision) r.1) made
          ∙ continue-pure (record w { sink = (provision x w.sink).1 }) x (provision x w.sink).0,
    )
  ]
