-- ===== src/MicrosoftAgt/Conjunction.antt =====
-- When the gate authorizes a call.
use cognous_agent_control_pl.Base.{
  String, Bool, true, false, Option, none, some, List, [], ◌∷◌, ◌≡◌, ◌↔◌, refl, sym, ap, ◌∙◌, inl,
  inr, not, ◌==◌, eq_iff, is_empty, get_or, arith, if◌then◌else◌, Bool-cases, strip, mem, Dict,
  fstring,
}
use cognous_agent_control_pl.Base.Outcome.{Exn, Result, ok, raise}
use cognous_agent_control_pl.Bounded.Models.{
  Value, RuntimeProposal, DecisionResult, RuntimeDecision,
}
use cognous_agent_control_pl.Bounded.Documents.{Platform, Committed}
use cognous_agent_control_pl.MicrosoftAgt.Models.{
  PolicyTarget, mapping, other, AgtDecision, BackendAnswer, answered, unavailable, raised, Services,
  CompatibilityOutcome, MicrosoftAgtCompatibilityEvidence, MicrosoftAgtCompatibilityResult,
}
use cognous_agent_control_pl.MicrosoftAgt.Adapter.{
  GateCall, agt_unavailable, request_of, transformed_proposal, finish, conclude_decision,
  conclude_gate, stop, ask_authority, transform, after_agt, after_backend, tenant_of, gate,
}

same_result :
    {r s : MicrosoftAgtCompatibilityResult}
    → ◌≡◌ {A = Result MicrosoftAgtCompatibilityResult} (ok r) (ok s)
    → s ≡ r
same_result h = cc

no_warnings : {A : Type 0} (xs : List A) → not (is_empty xs) ≡ false → xs ≡ []
no_warnings [] h = refl
no_warnings (x ∷ xs) h = cc

module _ (p : Platform) {W : Type 0} (services : Services W) (lower : String → String)
    (c : GateCall) where
  abbrev tenant : String
  tenant = tenant_of p services lower c c.tenant_id

  abbrev decision_text : AgtDecision → String
  decision_text agt = strip (lower agt.decision)

  given_tenant :
      (o : Option String)
      → (tenant_of p services lower c o == "") ≡ false
      → (s : String) × (o ≡ some s) × (tenant_of p services lower c o ≡ strip s)
  given_tenant none h = absurd (ground arith)
  given_tenant (some s) h = (s, refl, refl)

  -- The proposal that the authority is asked for: the caller's, or the one with the payload that
  -- the toolkit has applied.
  pub data Effective (agt : AgtDecision) : RuntimeProposal → Bool → Type 0 where
    allowed : decision_text agt ≡ "allow" → Effective agt c.proposal false
    transformed :
        (target : Dict Value)
        → decision_text agt ≡ "transform"
        → agt.transformed_policy_target_applied ≡ true
        → agt.transformed_policy_target ≡ mapping target
        → Effective agt
            (record c.proposal {
              payload = target;
              payload_commitment = p.commitment (Committed.payload target);
            })
            true

  -- The evidence of an authorized call: what the toolkit answered, the commitments of the caller's
  -- and of the effective proposal, and the identifier and result of the decision.
  abbrev pub evidence_for :
      AgtDecision → RuntimeProposal → Bool → RuntimeDecision → MicrosoftAgtCompatibilityEvidence
  evidence_for agt effective changed decision = record {
    profile = "microsoft-agt-pre-tool-call/0.1";
    upstream_revision = "84ae67348705996a3d65e31936afb7d02853f2a0";
    source = "microsoft/agent-governance-toolkit";
    tenant_id = tenant;
    tool_name = c.tool_name;
    tool_call_id = c.tool_call_id;
    agt_decision = agt.decision;
    agt_reason = agt.reason;
    agt_message = agt.message;
    agt_warnings = agt.warnings;
    agt_input_identity = agt.input_identity;
    agt_enforced_identity = agt.enforced_identity;
    agt_evidence_artefact = agt.evidence_artefact;
    agt_evidence_verification_pointers = agt.evidence_verification_pointers;
    original_proposal_commitment = p.commitment (Committed.proposal c.proposal);
    effective_proposal_commitment = some (p.commitment (Committed.proposal effective));
    transformed = changed;
    cognous_decision_id = some decision.decision_id;
    cognous_result = some decision.result;
    limitation =
        "AGT is an additional restriction only. Cognous authorization is independent; AGT evidence/telemetry is not Cognous authority.";
  }

  -- Both have agreed: the toolkit without a warning, then the authority on the effective proposal.
  pub record Agreed (w : W) (r : MicrosoftAgtCompatibilityResult) : Type 0 where
    pub agt : AgtDecision
    pub after : W
    pub named : (tenant == "") ≡ false
    pub given : (s : String) × (c.tenant_id ≡ some s) × (tenant ≡ strip s)
    pub asked :
        services.evaluate_pre_tool_call
          (record {
            tenant_id = tenant;
            tool_name = c.tool_name;
            arguments = c.proposal.payload;
            tool_call_id = c.tool_call_id;
            snapshot = get_or [] c.snapshot;
          })
          w
        ≡ (answered agt, after)
    pub unwarned : agt.warnings ≡ []
    pub effective : RuntimeProposal
    pub changed : Bool
    pub passed : Effective agt effective changed
    pub decision : RuntimeDecision
    pub judged : (services.authorize effective tenant c.now after).0 ≡ ok decision
    pub authorized : decision.result ≡ DecisionResult.authorized
    pub result : r ≡ record {
      result = CompatibilityOutcome.authorized;
      proposal = some effective;
      cognous_decision = some decision;
      evidence = evidence_for agt effective changed decision;
      reasons = [];
    }

  abbrev IsAuthorized : MicrosoftAgtCompatibilityResult → Type 0
  IsAuthorized r = r.result ≡ CompatibilityOutcome.authorized

  -- A result that stops before the authority is asked.
  stopped :
      (t : String) (agt : AgtDecision) (o : CompatibilityOutcome) (reason : String)
      (r : MicrosoftAgtCompatibilityResult)
      → ◌≡◌ {A = Result MicrosoftAgtCompatibilityResult} (ok (stop p c t agt o reason)) (ok r)
      → IsAuthorized r
      → o ≡ CompatibilityOutcome.authorized
  unfolding stop finish
  stopped t agt o reason r h a = sym (ap (λ x. x.result) (same_result h)) ∙ a

  IsAuthorized-conclude_decision :
      (agt : AgtDecision) (e : RuntimeProposal) (changed : Bool) (d : RuntimeDecision)
      (x : DecisionResult)
      → IsAuthorized (conclude_decision p c tenant agt e changed d x)
      → x ≡ DecisionResult.authorized
  unfolding conclude_decision finish
  IsAuthorized-conclude_decision agt e changed d DecisionResult.authorized a = refl
  IsAuthorized-conclude_decision agt e changed d DecisionResult.deny a = cc
  IsAuthorized-conclude_decision agt e changed d DecisionResult.hold a = cc

  authorized_conclusion :
      (agt : AgtDecision) (e : RuntimeProposal) (changed : Bool) (d : RuntimeDecision)
      (x : DecisionResult)
      → x ≡ DecisionResult.authorized
      → conclude_decision p c tenant agt e changed d x
        ≡ finish p c tenant agt CompatibilityOutcome.authorized (some e) (some d) changed []
  unfolding conclude_decision
  authorized_conclusion agt e changed d x h = rw h

  IsAuthorized-conclude_gate :
      (agt : AgtDecision) (e : RuntimeProposal) (changed : Bool) (j : Result RuntimeDecision)
      → IsAuthorized (conclude_gate p c tenant agt e changed j)
      → (d : RuntimeDecision) × (j ≡ ok d)
        × (d.result ≡ DecisionResult.authorized)
        × (conclude_gate p c tenant agt e changed j
            ≡ finish p c tenant agt CompatibilityOutcome.authorized (some e) (some d) changed [])
  unfolding conclude_gate
  IsAuthorized-conclude_gate agt e changed (raise x) a = absurd (error_differs x a)
    where
      error_differs :
          (x : Exn) → IsAuthorized (conclude_gate p c tenant agt e changed (raise x)) → ⊥
      error_differs x a = cc
  IsAuthorized-conclude_gate agt e changed (ok d) a =
      let same = IsAuthorized-conclude_decision agt e changed d d.result a in
      (d, refl, same, authorized_conclusion agt e changed d d.result same)

  module _ (w : W) (r : MicrosoftAgtCompatibilityResult) (a : IsAuthorized r) where
    Agreed-ask_authority :
        (agt : AgtDecision) (after : W) (e : RuntimeProposal) (changed : Bool)
        → (tenant == "") ≡ false
        → services.evaluate_pre_tool_call (request_of c tenant) w ≡ (answered agt, after)
        → agt.warnings ≡ []
        → Effective agt e changed
        → (ask_authority p services lower c tenant agt e changed after).0 ≡ ok r
        → Agreed w r
    unfolding ask_authority finish request_of
    Agreed-ask_authority agt after e changed named asked unwarned passed h =
        let same = same_result h in
        let j = (services.authorize e tenant c.now after).0 in
        let (d, judged, authorized, result) =
          IsAuthorized-conclude_gate agt e changed j (ap (λ x. x.result) (sym same) ∙ a) in
        record {
          agt = agt;
          after = after;
          named = named;
          given = given_tenant c.tenant_id named;
          asked = asked;
          unwarned = unwarned;
          effective = e;
          changed = changed;
          passed = passed;
          decision = d;
          judged = judged;
          authorized = authorized;
          result = same ∙ result;
        }

    held : {X : Type 0} → CompatibilityOutcome.hold ≡ CompatibilityOutcome.authorized → X
    held h = cc

    Agreed-transform :
        (agt : AgtDecision) (after : W) (applied : Bool) (target : PolicyTarget)
        → agt.transformed_policy_target_applied ≡ applied
        → agt.transformed_policy_target ≡ target
        → decision_text agt ≡ "transform"
        → (tenant == "") ≡ false
        → services.evaluate_pre_tool_call (request_of c tenant) w ≡ (answered agt, after)
        → agt.warnings ≡ []
        → (transform p services lower c tenant agt applied target after).0 ≡ ok r
        → Agreed w r
    unfolding transform transformed_proposal
    Agreed-transform agt after true (mapping target) u t e named asked unwarned h =
        Agreed-ask_authority agt after (transformed_proposal p c.proposal target) true named asked
          unwarned (transformed target e u t) h
    Agreed-transform agt after true other u t e named asked unwarned h =
        held (stopped tenant agt CompatibilityOutcome.hold _ r h a)
    Agreed-transform agt after false target u t e named asked unwarned h =
        held (stopped tenant agt CompatibilityOutcome.hold _ r h a)

    Agreed-after_agt :
        (agt : AgtDecision) (after : W)
        → (tenant == "") ≡ false
        → services.evaluate_pre_tool_call (request_of c tenant) w ≡ (answered agt, after)
        → (after_agt p services lower c tenant agt (decision_text agt) after).0 ≡ ok r
        → Agreed w r
    unfolding after_agt
    Agreed-after_agt agt after named asked h = elim (Bool-cases (not (is_empty agt.warnings))) [
      | inl x ↦ held (stopped tenant agt CompatibilityOutcome.hold _ r (rw x at h) a)
      | inr x ↦ elim (Bool-cases (mem (decision_text agt) ("deny" ∷ "escalate" ∷ "warn" ∷ []))) [
        | inl y ↦ refused (decision_text agt == "deny") (rw (x, y) at h)
        | inr y ↦ elim (Bool-cases (decision_text agt == "transform")) [
          | inl z ↦
              Agreed-transform agt after agt.transformed_policy_target_applied
                agt.transformed_policy_target refl refl ((eq_iff _ _).0 z) named asked
                (no_warnings agt.warnings x) (rw (x, y, z) at h)
          | inr z ↦ elim (Bool-cases (decision_text agt == "allow")) [
            | inr v ↦
                held (stopped tenant agt CompatibilityOutcome.hold _ r (rw (x, y, z, v) at h) a)
            | inl v ↦
                Agreed-ask_authority agt after c.proposal false named asked
                  (no_warnings agt.warnings x) (allowed ((eq_iff _ _).0 v)) (rw (x, y, z, v) at h)
          ]
        ]
      ]
    ]
      where
        denied : CompatibilityOutcome.deny ≡ CompatibilityOutcome.authorized → Agreed w r
        denied e = cc

        refused :
            (b : Bool)
            → ◌≡◌ {A = Result MicrosoftAgtCompatibilityResult}
                (ok (
                  stop p c tenant agt
                    (if b then CompatibilityOutcome.deny else CompatibilityOutcome.hold)
                    (fstring ("agt_" ∷ decision_text agt ∷ []))))
                (ok r)
            → Agreed w r
        refused true k = denied (stopped tenant agt CompatibilityOutcome.deny _ r k a)
        refused false k = held (stopped tenant agt CompatibilityOutcome.hold _ r k a)

    Agreed-after_backend :
        (answer : BackendAnswer) (after : W)
        → (tenant == "") ≡ false
        → services.evaluate_pre_tool_call (request_of c tenant) w ≡ (answer, after)
        → (after_backend p services lower c tenant answer after).0 ≡ ok r
        → Agreed w r
    unfolding after_backend
    Agreed-after_backend (answered agt) after named asked h =
        Agreed-after_agt agt after named asked h
    Agreed-after_backend (unavailable m) after named asked h = held (
        stopped tenant (agt_unavailable "backend_unavailable" (some m)) CompatibilityOutcome.hold _
          r h a)
    Agreed-after_backend (raised e) after named asked h = cc

    gate-Agreed : (gate p services lower c w).0 ≡ ok r → Agreed w r
    unfolding gate
    gate-Agreed h = elim (Bool-cases (tenant == "")) [
      | inl x ↦ held (
          stopped "" (agt_unavailable "tenant_missing" none) CompatibilityOutcome.hold _ r
            (rw x at h) a)
      | inr x ↦
          let (answer, after) = services.evaluate_pre_tool_call (request_of c tenant) w in
          Agreed-after_backend answer after x refl (rw x at h)
    ]

  is_empty-nil : {A : Type 0} (xs : List A) → xs ≡ [] → not (is_empty xs) ≡ false
  is_empty-nil [] h = refl
  is_empty-nil (x ∷ xs) h = cc

  module _ (w : W) (r : MicrosoftAgtCompatibilityResult) (v : Agreed w r) where
    asked_authority :
        (ask_authority p services lower c tenant v.agt v.effective v.changed v.after).0 ≡ ok r
    unfolding ask_authority conclude_gate finish
    asked_authority =
        rw (v.judged, v.result)
          (ap ok (authorized_conclusion v.agt v.effective v.changed v.decision _ v.authorized))

    passed_on :
        (e : RuntimeProposal) (changed : Bool)
        → Effective v.agt e changed
        → (ask_authority p services lower c tenant v.agt e changed v.after).0 ≡ ok r
        → (after_agt p services lower c tenant v.agt (decision_text v.agt) v.after).0 ≡ ok r
    unfolding after_agt transform transformed_proposal
    passed_on e changed (allowed t) h = rw (is_empty-nil v.agt.warnings v.unwarned, t) h
    passed_on e changed (transformed target t applied given) h =
        rw (is_empty-nil v.agt.warnings v.unwarned, t)
          (ap
              (λ b.
                (transform p services lower c tenant v.agt b v.agt.transformed_policy_target
                  v.after).0)
              applied
            ∙ (ap (λ x. (transform p services lower c tenant v.agt true x v.after).0) given ∙ h))

    asked_request :
        services.evaluate_pre_tool_call (request_of c tenant) w ≡ (answered v.agt, v.after)
    unfolding request_of
    asked_request = v.asked

    Agreed-gate : ((gate p services lower c w).0 ≡ ok r) × IsAuthorized r
    unfolding gate after_backend finish
    Agreed-gate = (
      rw (v.named, asked_request) (passed_on v.effective v.changed v.passed asked_authority),
      ap (λ x. x.result) v.result,
    )

  -- The gate returns an authorized result exactly if a tenant is named, the toolkit answers without a
  -- warning that the call is allowed, or transformed with a payload that it has applied, and the
  -- authority then authorizes for the tenant the proposal of the caller, or that with the new payload
  -- and its commitment; the result carries the proposal and the decision, and its evidence the answer
  -- of the toolkit, the commitments of both proposals and the identifier and result of the decision.
  pub gate_iff :
      (w : W) (r : MicrosoftAgtCompatibilityResult)
      → (((gate p services lower c w).0 ≡ ok r) × (r.result ≡ CompatibilityOutcome.authorized))
        ↔ Agreed w r
  gate_iff w r = (λ h. gate-Agreed w r h.1 h.0, λ v. Agreed-gate w r v)
