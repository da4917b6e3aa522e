-- ===== src/Policy/Allow.antt =====
-- `evaluate` and `evaluate_with_trace`: what an allowed action has, and how a trace explains the
-- decision.
use cognous_agent_control_pl.Base.{
  ℕ, String, Bool, true, false, none, some, List, ◌≡◌, ◌⊎◌, inl, inr, refl, sym, ap, ◌∙◌, arith,
  ◌==◌, eq_iff, mem, if◌then◌else◌, Bool-cases,
}
use cognous_agent_control_pl.Base.Outcome.{Exn, ok, raise, bind-eq-ok, Result-cases}
use cognous_agent_control_pl.Bounded.Documents.{Platform}
use cognous_agent_control_pl.Policy.Models.{
  Frame, ActionProposal, PolicyResult, PolicyEvaluationTrace, PolicyDecision, AuthorityRecord,
}
use cognous_agent_control_pl.Policy.Gate.{
  Verdict, Canonical, apply_rules, active_scopes, evaluate, evaluate_with_trace, decision_of,
  trace_of,
}
use cognous_agent_control_pl.Policy.Scopes.{Grants, active_scopes-Grants}
use cognous_agent_control_pl.Policy.Rules.{table, IsTrace, apply_rules-table}

-- What the table allows: a listed tool that is not blocked, for reading, or in a granted scope.
abbrev pub MayRun : ActionProposal → List String → Type 0
MayRun a scopes =
    (a.action_type ≡ "read")
    ⊎ ((a.action_type ≡ "write") × (mem "write" scopes ≡ true))
    ⊎ ((a.action_type ≡ "external_send") × (mem "external_send" scopes ≡ true))

scoped_send :
    (scopes : List String)
    → (if mem "external_send" scopes then PolicyResult.allow else PolicyResult.block)
      ≡ PolicyResult.allow
    → mem "external_send" scopes ≡ true
scoped_send scopes h = ground arith

scoped_write :
    (scopes : List String)
    → (if mem "write" scopes then PolicyResult.allow else PolicyResult.escalate)
      ≡ PolicyResult.allow
    → mem "write" scopes ≡ true
scoped_write scopes h = ground arith

not_allowed : PolicyResult.escalate ≡ PolicyResult.allow → ⊥
not_allowed h = cc

table-allow :
    (blocked allowed : Bool) (a : ActionProposal) (scopes : List String)
    → (table blocked allowed a.action_type scopes).0 ≡ PolicyResult.allow
    → (blocked ≡ false) × (allowed ≡ true) × MayRun a scopes
table-allow true allowed a scopes h = cc
table-allow false false a scopes h = cc
table-allow false true a scopes h = elim (Bool-cases (a.action_type == "external_send")) [
  | inl t ↦ (refl, refl, inr (inr ((eq_iff _ _).0 t, scoped_send scopes (rw t at h))))
  | inr t ↦ elim (Bool-cases (a.action_type == "read")) [
    | inl u ↦ (refl, refl, inl ((eq_iff _ _).0 u))
    | inr u ↦ elim (Bool-cases (a.action_type == "write")) [
      | inl v ↦ (refl, refl, inr (inl ((eq_iff _ _).0 v, scoped_write scopes (rw (t, u, v) at h))))
      | inr v ↦ absurd (not_allowed (rw (t, u, v) at h))
    ]
  ]
]

decided : {d e : PolicyDecision} → ok d ≡ ok e → e ≡ d
decided h = cc

same_verdict : {v w : Verdict} → ok v ≡ ok w → w ≡ v
same_verdict h = cc

module _ (p : Platform) (sha256 : Canonical → String) where
  -- The trace tells how the decision was reached.
  pub record Explains (d : PolicyDecision) (t : PolicyEvaluationTrace) : Type 0 where
    pub same_trace : d.trace_id ≡ some t.trace_id
    pub same_result : t.final_result ≡ d.result
    pub same_fingerprint : t.deterministic_fingerprint ≡ d.deterministic_fingerprint
    pub rules : IsTrace t.rules_evaluated d.result d.policy_name

  evaluate-ok :
      (a : ActionProposal) (f : Frame) (records : List AuthorityRecord) (now : ℕ)
      (decision_id : String) (d : PolicyDecision)
      → evaluate p sha256 a f records now decision_id ≡ ok d
      → (scopes : List String) × (v : Verdict) × (active_scopes p sha256 a f now records
          ≡ ok scopes)
        × (apply_rules a f scopes ≡ ok v)
        × (d.result ≡ v.result)
  unfolding evaluate decision_of
  evaluate-ok a f records now decision_id d h =
      let first = bind-eq-ok (active_scopes p sha256 a f now records) _ h in
      let second = bind-eq-ok (apply_rules a f first.0) _ first.2 in
      (first.0, second.0, first.1, second.1, ap (λ x. x.result) (decided second.2))

  permitted :
      (a : ActionProposal) (f : Frame) (records : List AuthorityRecord) (now : ℕ)
      (scopes : List String)
      → active_scopes p sha256 a f now records ≡ ok scopes
      → MayRun a scopes
      → (a.action_type ≡ "read")
        ⊎ ((a.action_type ≡ "write") × Grants p sha256 a f now "write" records)
        ⊎ ((a.action_type ≡ "external_send") × Grants p sha256 a f now "external_send" records)
  permitted a f records now scopes h (inl x) = inl x
  permitted a f records now scopes h (inr (inl (x, m))) =
      inr (inl (x, active_scopes-Grants p sha256 a f now "write" records scopes h m))
  permitted a f records now scopes h (inr (inr (x, m))) =
      inr (inr (x, active_scopes-Grants p sha256 a f now "external_send" records scopes h m))

  -- An action is allowed only if its tool is listed and not blocked, and it reads, or it writes or
  -- sends under an authority record of this run and this actor that has not expired and grants that
  -- scope.
  pub evaluate-allow :
      (a : ActionProposal) (f : Frame) (records : List AuthorityRecord) (now : ℕ)
      (decision_id : String) (d : PolicyDecision)
      → evaluate p sha256 a f records now decision_id ≡ ok d
      → d.result ≡ PolicyResult.allow
      → (mem a.tool_name f.blocked_tools ≡ false)
        × (mem a.tool_name f.allowed_tools ≡ true)
        × ((a.action_type ≡ "read")
            ⊎ ((a.action_type ≡ "write") × Grants p sha256 a f now "write" records)
            ⊎ ((a.action_type ≡ "external_send") × Grants p sha256 a f now "external_send" records))
  evaluate-allow a f records now decision_id d h allowed =
      let (scopes, v, active, applied, same) = evaluate-ok a f records now decision_id d h in
      let (w, applied', outcome, _) = apply_rules-table a f scopes in
      let result : w.result ≡ PolicyResult.allow =
        ap (λ x. x.result) (same_verdict (sym applied ∙ applied')) ∙ (sym same ∙ allowed) in
      let (blocked, listed, may) =
        table-allow _ _ a scopes (sym (ap (λ x. x.0) outcome) ∙ result) in
      (blocked, listed, permitted a f records now scopes active may)

  -- Where the scopes cannot be read both methods raise; else both decide, alike but for the reference
  -- to the trace, and the trace explains the decision.
  pub evaluate_with_trace-Explains :
      (a : ActionProposal) (f : Frame) (records : List AuthorityRecord) (now : ℕ)
      (trace_id decision_id : String)
      → ((e : Exn) × (active_scopes p sha256 a f now records ≡ raise e)
          × (evaluate p sha256 a f records now decision_id ≡ raise e)
          × (evaluate_with_trace p sha256 a f records now trace_id decision_id ≡ raise e))
        ⊎ ((d : PolicyDecision) × (t : PolicyEvaluationTrace) × (evaluate_with_trace p sha256 a f
                records now trace_id decision_id
              ≡ ok (d, t))
            × (evaluate p sha256 a f records now decision_id ≡ ok (record d { trace_id = none }))
            × Explains d t)
  unfolding evaluate evaluate_with_trace
  evaluate_with_trace-Explains a f records now trace_id decision_id =
      elim (Result-cases (active_scopes p sha256 a f now records)) [
        | inr (e, h) ↦ inl (e, h, rw h, rw h)
        | inl (scopes, h) ↦
            let (v, applied, _, trace) = apply_rules-table a f scopes in
            inr (
              decision_of p sha256 a f now scopes decision_id (some trace_id) v,
              trace_of p sha256 a f now scopes trace_id v,
              rw (h, applied),
              rw (h, applied),
              record {
                same_trace = refl;
                same_result = refl;
                same_fingerprint = refl;
                rules = trace;
              },
            )
      ]
