-- ===== src/LocalAuthority/Claim/Issued.antt =====
-- What an issued claim establishes, and that it verifies.
use cognous_agent_control_pl.Base.{
  affirmed, ℕ, String, Bool, true, Option, none, some, List, [], ◌∷◌, ◌≡◌, inl, inr, refl, sym, ap,
  ◌∙◌, ◌==◌, eq_iff, ◌&&◌, not, holds, holds→, arith, Bool-cases,
}
use cognous_agent_control_pl.Base.Outcome.{Exn, ok, raise, bind-eq-ok}
use cognous_agent_control_pl.Bounded.Models.{
  AuthorizationBinding, AuthorizationBinding-discrete, DecisionResult, RuntimeDecision,
  RuntimeDecision-discrete,
}
use cognous_agent_control_pl.Bounded.Documents.{Platform}
use cognous_agent_control_pl.Bounded.World.{Config}
use cognous_agent_control_pl.Bounded.Store.{Document, RecordFile, stored, find_decision}
use cognous_agent_control_pl.Bounded.Context.{text_or_empty}
use cognous_agent_control_pl.Bounded.Resolve.{resolve}
use cognous_agent_control_pl.Bounded.Resolve.Authorized.{IsAuthorized, resolve-IsAuthorized}
use cognous_agent_control_pl.LocalAuthority.Models.{
  LocalExecutionClaim, ClaimDocument, AuthoritySnapshot, OperationPayload,
}
use cognous_agent_control_pl.LocalAuthority.Projections.{Validated, validate_issuance_snapshot}
use cognous_agent_control_pl.LocalAuthority.Projections.Sound.{refuse_if-ok, same_ok}
use cognous_agent_control_pl.LocalAuthority.Projections.Snapshot.{
  IsValidated, validate_issuance_snapshot-IsValidated,
}
use cognous_agent_control_pl.LocalAuthority.Content.{
  IssueCall, interval_of, operation_payload, authority_state_of, content_of, claim_of, verify_claim,
}
use cognous_agent_control_pl.LocalAuthority.Claim.{
  AuthoritySource, authorized_binding, admit_issue, still_bound, snapshot_of, issue, materialize_at,
}
use cognous_agent_control_pl.LocalAuthority.Content.Interval.{IsInterval, interval_of-IsInterval}
use cognous_agent_control_pl.LocalAuthority.Claim.Carried.{
  Carries, content_of-Carries, carried, States, operation_payload-States,
}

both : (a b : Bool) → a ≡ true → b ≡ true → (a && b) ≡ true
both a b h k = ground arith

itself : (s : String) → (s == s) ≡ true
itself s = (eq_iff s s).1 refl

refused : {A : Type 0} {e : Exn} {x : A} → raise e ≡ ok x → ⊥
refused h = cc

module _ (p : Platform) (commit : ClaimDocument → String) where
  -- A claim with the commitments of its parts verifies.
  claim_of-verifies :
      (c : IssueCall) (now : ℕ) (b : AuthorizationBinding) (v : Validated) (interval : ℕ × ℕ)
      (payload : OperationPayload)
      → verify_claim p commit (claim_of p commit (content_of p commit c now b v interval payload))
        ≡ true
  unfolding verify_claim claim_of content_of authority_state_of
  claim_of-verifies c now b v interval payload = both _ _ refl (
      both _ _ refl (
        both _ _ refl (
          both _ _ (itself (commit (ClaimDocument.approvals v.approvals))) (
            both _ _ (itself (commit (ClaimDocument.policies v.policies))) (
              both _ _ (itself (commit (ClaimDocument.evidence v.evidence))) (
                both _ _
                  (itself (commit (ClaimDocument.authority (authority_state_of p commit b v))))
                  (itself (
                    commit (
                      ClaimDocument.content
                        (content_of p commit c now b v interval payload))))))))))

  authorized_binding-ok :
      (d : RuntimeDecision) (x : DecisionResult) (o : Option AuthorizationBinding)
      (b : AuthorizationBinding)
      → authorized_binding p commit d x o ≡ ok b
      → (x ≡ DecisionResult.authorized) × (o ≡ some b)
  unfolding authorized_binding
  authorized_binding-ok d DecisionResult.authorized (some b') b h =
      (refl, ap some (sym (same_ok h)))
  authorized_binding-ok d DecisionResult.authorized none b h = cc
  authorized_binding-ok d DecisionResult.hold o b h = cc
  authorized_binding-ok d DecisionResult.deny o b h = cc

  admit_issue-ok :
      (d : RuntimeDecision) (o : Option RuntimeDecision) (b : AuthorizationBinding)
      → admit_issue p commit d o ≡ ok b
      → (o ≡ some d) × (d.result ≡ DecisionResult.authorized) × (d.binding ≡ some b)
  unfolding admit_issue
  admit_issue-ok d none b h = cc
  admit_issue-ok d (some e) b h =
      let (same, rest) = refuse_if-ok (not (holds (RuntimeDecision-discrete e d))) _ _ h in
      let (result, binding) = authorized_binding-ok d d.result d.binding b rest in
      (ap some (holds→ (RuntimeDecision-discrete e d) (affirmed _ same)), result, binding)

  still_bound-ok :
      (b : AuthorizationBinding) (found : List String × Option AuthorizationBinding)
      (b' : AuthorizationBinding)
      → still_bound p commit b found ≡ ok b'
      → (found ≡ ([], some b)) × (b' ≡ b)
  unfolding still_bound
  still_bound-ok b ([], some x) b' h =
      elim (Bool-cases (holds (AuthorizationBinding-discrete x b))) [
        | inl e ↦
            let same = holds→ (AuthorizationBinding-discrete x b) e in
            (ap (λ y. ([], some y)) same, same_ok (rw e at h) ∙ same)
        | inr e ↦ absurd (refused (rw e at h))
      ]
  still_bound-ok b ([], none) b' h = cc
  still_bound-ok b (x ∷ xs, o) b' h = cc

  module _ (cfg : Config) (source : AuthoritySource) (c : IssueCall) where
    -- What stands behind an issued claim: the persisted authorized decision, the binding that the
    -- proposal still resolves to, the snapshot accepted for it, and the interval.
    pub record IsIssued (now : ℕ) (file : RecordFile) (x : LocalExecutionClaim) : Type 0 where
      pub document : Document
      pub readable : file ≡ stored document
      pub persisted : find_decision c.decision.decision_id document.run.decisions ≡ some c.decision
      pub authorized : c.decision.result ≡ DecisionResult.authorized
      pub binding : AuthorizationBinding
      pub of_decision : c.decision.binding ≡ some binding
      pub resolved : resolve p cfg source.resolver now c.proposal ≡ ok ([], some binding)
      pub current : IsAuthorized p cfg source.resolver now c.proposal binding
      pub reader : String → Option AuthoritySnapshot
      pub handed_off : source.snapshot_reader ≡ some reader
      pub snapshot : AuthoritySnapshot
      pub read : reader (text_or_empty c.proposal.authority_context_ref) ≡ some snapshot
      pub validated : Validated
      pub accepted : IsValidated p cfg.clock_tolerance_seconds now binding snapshot validated
      pub start : ℕ
      pub end : ℕ
      pub interval : IsInterval p commit c now validated.grant start end
      pub payload : OperationPayload
      pub operation :
          operation_payload p commit c.proposal binding validated.context.institution ≡ ok payload
      pub stated : States c.proposal binding validated payload
      pub carries : Carries p commit c binding validated start end payload now x
      pub claim :
          x ≡ claim_of p commit (content_of p commit c now binding validated (start, end) payload)

    snapshot_of-ok :
        (o : Option AuthoritySnapshot) (s : AuthoritySnapshot)
        → snapshot_of p commit o ≡ ok s
        → o ≡ some s
    snapshot_of-ok none s h = cc
    snapshot_of-ok (some t) s h = ap some (sym (same_ok h))

    issue-IsIssued :
        (now : ℕ) (d : Document) (file : RecordFile) (b : AuthorizationBinding)
        (reader : String → Option AuthoritySnapshot) (x : LocalExecutionClaim)
        → file ≡ stored d
        → find_decision c.decision.decision_id d.run.decisions ≡ some c.decision
        → c.decision.result ≡ DecisionResult.authorized
        → c.decision.binding ≡ some b
        → source.snapshot_reader ≡ some reader
        → issue p commit cfg source c now b reader ≡ ok x
        → IsIssued now file x
    unfolding issue
    issue-IsIssued now d file b reader x readable persisted authorized of_decision handed_off h =
        let (found, resolved, rest) =
          bind-eq-ok (resolve p cfg source.resolver now c.proposal) _ h in
        let (current, bound, rest) = bind-eq-ok (still_bound p commit b found) _ rest in
        let (snapshot, read, rest) = bind-eq-ok (snapshot_of p commit _) _ rest in
        let (v, accepted, rest) =
          bind-eq-ok (validate_issuance_snapshot p cfg.clock_tolerance_seconds now b snapshot) _
            rest in
        let (interval, within, rest) = bind-eq-ok (interval_of p commit c now v.grant) _ rest in
        let (payload, operation, done) =
          bind-eq-ok (operation_payload p commit c.proposal b v.context.institution) _ rest in
        let (same_found, same_binding) = still_bound-ok b found current bound in
        let issued : x ≡ claim_of p commit (content_of p commit c now b v interval payload) =
          same_ok done
          ∙ ap (λ y. claim_of p commit (content_of p commit c now y v interval payload))
              same_binding in
        record {
          document = d;
          readable = readable;
          persisted = persisted;
          authorized = authorized;
          binding = b;
          of_decision = of_decision;
          resolved = resolved ∙ ap ok same_found;
          current =
              (resolve-IsAuthorized p cfg source.resolver now c.proposal [] b
                (resolved ∙ ap ok same_found)).1;
          reader = reader;
          handed_off = handed_off;
          snapshot = snapshot;
          read = snapshot_of-ok _ snapshot read;
          validated = v;
          accepted =
              validate_issuance_snapshot-IsValidated p cfg.clock_tolerance_seconds now b snapshot v
                accepted;
          start = interval.0;
          end = interval.1;
          interval = interval_of-IsInterval p commit c now v.grant interval.0 interval.1 within;
          payload = payload;
          operation = operation;
          stated = operation_payload-States p commit c.proposal b v payload operation;
          carries =
              carried p commit c issued
                (content_of-Carries p commit c b v interval.0 interval.1 payload now);
          claim = issued;
        }

    pub materialize_at-IsIssued :
        (now : ℕ) (d : Document) (file : RecordFile) (o : Option RuntimeDecision)
        (reader : Option (String → Option AuthoritySnapshot)) (x : LocalExecutionClaim)
        → file ≡ stored d
        → o ≡ find_decision c.decision.decision_id d.run.decisions
        → source.snapshot_reader ≡ reader
        → materialize_at p commit cfg source c now o reader ≡ ok x
        → IsIssued now file x
    unfolding materialize_at
    materialize_at-IsIssued now d file o none x readable looked_up handed_off h =
        let (b, _, rest) = bind-eq-ok (admit_issue p commit c.decision o) _ h in
        absurd (refused rest)
    materialize_at-IsIssued now d file o (some reader) x readable looked_up handed_off h =
        let (b, admitted, rest) = bind-eq-ok (admit_issue p commit c.decision o) _ h in
        let (persisted, result, binding) = admit_issue-ok c.decision o b admitted in
        issue-IsIssued now d file b reader x readable (sym looked_up ∙ persisted) result binding
          handed_off rest

    pub IsIssued-verifies :
        (now : ℕ) (file : RecordFile) (x : LocalExecutionClaim)
        → IsIssued now file x
        → verify_claim p commit x ≡ true
    IsIssued-verifies now file x i =
        ap (verify_claim p commit) i.claim
        ∙ claim_of-verifies c now i.binding i.validated (i.start, i.end) i.payload
