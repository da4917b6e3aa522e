-- ===== src/Records/Tools/Reached.antt =====
-- When a call under control reaches the tool.
use cognous_agent_control_pl.Base.{
  ℕ, String, true, false, Option, none, some, List, [], ◌∷◌, ◌++◌, ◌≡◌, refl, sym, ap, ◌∙◌, ◌⊎◌,
  inl, inr, ◌||◌, not, ◌==◌, eq_iff, get_or, Dict, Bool-cases, arith, mem,
}
use cognous_agent_control_pl.Base.Outcome.{
  Exn, Result, ok, raise, lift, pure, continue, ◌>>=◌, ◌>>◌, Result-cases,
}
use cognous_agent_control_pl.Bounded.Models.{Value}
use cognous_agent_control_pl.Bounded.Documents.{Platform}
use cognous_agent_control_pl.Policy.Models.{
  Frame, ActionProposal, PolicyResult, PolicyDecision, PolicyEvaluationTrace, AuthorityRecord,
}
use cognous_agent_control_pl.Policy.Gate.{Canonical, evaluate_with_trace}
use cognous_agent_control_pl.Policy.Scopes.{Grants}
use cognous_agent_control_pl.Policy.Allow.{evaluate-allow, evaluate_with_trace-Explains}
use cognous_agent_control_pl.Records.Models.{BlockedAction, ToolExecutionResult}
use cognous_agent_control_pl.Records.Recorder.{
  Started, RunRecorder, propose_action, record_reliance, require_started_lem,
}
use cognous_agent_control_pl.Records.Recorder.Evaluate.{
  EvaluateCall, evaluate_action, note_decision, note_trace, is_proposed, is_block,
}
use cognous_agent_control_pl.Records.Recorder.Invariant.{IsRun, IsRun-propose}
use cognous_agent_control_pl.Records.Recorder.Calls.{IsRun-evaluate_action, IsRun-record_reliance}
use cognous_agent_control_pl.Records.Tools.{
  ToolAdapter, ControlCall, Controlled, Answer, evaluation_of, reliance_of, tool_result, is_allow,
  settle_tool, use_adapter, enforce, execute_with_control,
}

allowed_lem : (x : PolicyResult) → is_allow x ≡ true → x ≡ PolicyResult.allow
unfolding is_allow
allowed_lem PolicyResult.allow h = refl
allowed_lem PolicyResult.block h = cc
allowed_lem PolicyResult.escalate h = cc

bound_adapter : (a b c d : String) → (not (a == b) || not (c == d)) ≡ false → (a ≡ b) × (c ≡ d)
bound_adapter a b c d h = (ground (arith, eq_iff a b), ground (arith, eq_iff c d))

-- What the gate has established of an allowed action.
abbrev pub IsPermitted :
    Platform → (Canonical → String) → Frame → List AuthorityRecord → ℕ → ActionProposal → Type 0
IsPermitted p sha256 f records now a =
    (mem a.tool_name f.blocked_tools ≡ false)
    × (mem a.tool_name f.allowed_tools ≡ true)
    × ((a.action_type ≡ "read")
        ⊎ ((a.action_type ≡ "write") × Grants p sha256 a f now "write" records)
        ⊎ ((a.action_type ≡ "external_send") × Grants p sha256 a f now "external_send" records))

raised_not_ok : {A : Type 0} (e : Exn) (a : A) → ◌≡◌ {A = Result A} (raise e) (ok a) → ⊥
raised_not_ok e a h = cc

same_judgement :
    {d e : PolicyDecision} {t u : PolicyEvaluationTrace}
    → ◌≡◌ {A = Result (PolicyDecision × PolicyEvaluationTrace)} (ok (d, t)) (ok (e, u))
    → d ≡ e
same_judgement h = cc

-- What the gate allows with a trace is permitted.
allowed-IsPermitted :
    (p : Platform) (sha256 : Canonical → String) (a : ActionProposal) (f : Frame)
    (records : List AuthorityRecord) (now : ℕ) (trace_id decision_id : String) (d : PolicyDecision)
    (t : PolicyEvaluationTrace)
    → evaluate_with_trace p sha256 a f records now trace_id decision_id ≡ ok (d, t)
    → d.result ≡ PolicyResult.allow
    → IsPermitted p sha256 f records now a
allowed-IsPermitted p sha256 a f records now trace_id decision_id d t h allowed =
    elim (evaluate_with_trace-Explains p sha256 a f records now trace_id decision_id) [
      | inl (e, _, _, raised) ↦ absurd (raised_not_ok e (d, t) (sym raised ∙ h))
      | inr (d', t', decided, untraced, _) ↦
          let same = same_judgement (sym decided ∙ h) in
          evaluate-allow p sha256 a f records now decision_id _ untraced
            (ap (λ x. x.result) same ∙ allowed)
    ]

same_decision :
    {d e : PolicyDecision} {b b' : Option BlockedAction}
    → ◌≡◌ {A = Result (PolicyDecision × Option BlockedAction)} (ok (d, b)) (ok (e, b'))
    → d ≡ e
same_decision h = cc

note_decision-ok :
    (s : Started) (e : EvaluateCall) (r : RunRecorder) (d d' : PolicyDecision)
    (b : Option BlockedAction)
    → (note_decision s e d' r).0 ≡ ok (d, b)
    → d' ≡ d
unfolding note_decision
note_decision-ok s e r d d' b h = elim (Bool-cases (is_block d'.result)) [
  | inl g ↦ same_decision (rw g at h)
  | inr g ↦ same_decision (rw g at h)
]

judged-ok :
    (s : Started) (e : EvaluateCall) (r : RunRecorder) (d : PolicyDecision)
    (b : Option BlockedAction) (o : Result (PolicyDecision × PolicyEvaluationTrace))
    → ((do
      d' ← do x ← lift o; note_trace x.1; pure x.0
      note_decision s e d')
        r).0
      ≡ ok (d, b)
    → (t : PolicyEvaluationTrace) × (o ≡ ok (d, t))
unfolding note_trace
judged-ok s e r d b (raise x) h = absurd (raised_not_ok x (d, b) h)
judged-ok s e r d b (ok (d', t)) h = (t, ap (λ y. ok (y, t)) (note_decision-ok s e _ d d' b h))

-- An evaluation with a trace that returns has the decision of the gate.
evaluate_action-ok :
    (p : Platform) (sha256 : Canonical → String) (s : Started) (c : ControlCall)
    (a : ActionProposal) (r : RunRecorder) (d : PolicyDecision) (b : Option BlockedAction)
    → r.started ≡ some s
    → (evaluate_action p sha256 (evaluation_of c a) r).0 ≡ ok (d, b)
    → (t : PolicyEvaluationTrace) × (evaluate_with_trace p sha256 a s.frame r.authority_records
          c.now c.trace_uuid c.decision_uuid
        ≡ ok (d, t))
unfolding evaluate_action evaluation_of
evaluate_action-ok p sha256 s c a r d b started h =
    let called = rw (require_started_lem r s started) at h in
    elim (Bool-cases (a.run_id == s.run_id)) [
      | inr e ↦ absurd (raised_not_ok _ (d, b) (rw e at called))
      | inl e ↦ elim (Bool-cases (is_proposed a.action_id r.actions)) [
        | inr g ↦ absurd (raised_not_ok _ (d, b) (rw (e, g) at called))
        | inl g ↦ judged-ok s (evaluation_of c a) r d b _ (rw (e, g) at called)
      ]
    ]

module _ {W : Type 0} (c : ControlCall) (adapter : Option (ToolAdapter W)) where
  -- The tool has run once, on the approved target and payload, and the answer says so.
  pub record Reached (d : PolicyDecision) (before : W) (out : Result Answer × Controlled W)
      : Type 0 where
    pub used : ToolAdapter W
    pub given : adapter ≡ some used
    pub named : used.name ≡ c.tool_name
    pub typed : used.action_type ≡ c.action_type
    pub allowed : d.result ≡ PolicyResult.allow
    pub acted : out.1.tool ≡ (used.execute c.target (get_or [] c.payload) before).1
    pub answer : ToolExecutionResult
    pub answered : out.0 ≡ ok (d, some answer)
    pub executed : answer.executed ≡ true

  module _ (s : Started) (a : ActionProposal) (d : PolicyDecision) where
    settle_tool_lem :
        (w : Controlled W) (o : Result (Dict Value))
        → w.recorder.started ≡ some s
        → ((settle_tool c a d o w).1.tool ≡ w.tool)
          × ((x : ToolExecutionResult) × ((settle_tool c a d o w).0 ≡ ok (d, some x))
              × (x.executed ≡ true))
    unfolding settle_tool tool_result record_reliance
    settle_tool_lem w (raise e) h = (refl, (_, refl, refl))
    settle_tool_lem w (ok x) h = rw (require_started_lem w.recorder s h) (refl, (_, refl, refl))

    settle_tool-IsRun :
        (w : Controlled W) (o : Result (Dict Value))
        → IsRun s w.recorder
        → IsRun s (settle_tool c a d o w).1.recorder
    unfolding settle_tool
    settle_tool-IsRun w (raise e) v = v
    settle_tool-IsRun w (ok x) v =
        let kept = IsRun-record_reliance s (reliance_of c a) w.recorder v in
        let recorded = Result-cases (record_reliance (reliance_of c a) w.recorder).0 in
        elim recorded [ inl (x, e) ↦ rw e kept | inr (x, e) ↦ rw e kept ]

    use_adapter-Reached :
        (w : Controlled W) (given : Option (ToolAdapter W))
        → adapter ≡ given
        → w.recorder.started ≡ some s
        → d.result ≡ PolicyResult.allow
        → ((use_adapter c a d given w).1.tool ≡ w.tool)
          ⊎ Reached d w.tool (use_adapter c a d given w)
    unfolding use_adapter
    use_adapter-Reached w none g h allowed = inl refl
    use_adapter-Reached w (some t) g h allowed =
        elim (Bool-cases (not (t.name == c.tool_name) || not (t.action_type == c.action_type))) [
          | inl e ↦ inl (rw e)
          | inr e ↦
              let ran = t.execute c.target (get_or [] c.payload) w.tool in
              let w' : Controlled W = record w { tool = ran.1 } in
              let (acted, (x, answered, executed)) = settle_tool_lem w' ran.0 h in
              let (named, typed) = bound_adapter _ _ _ _ e in
              inr (
                rw e (record {
                  used = t;
                  given = g;
                  named = named;
                  typed = typed;
                  allowed = allowed;
                  acted = acted;
                  answer = x;
                  answered = answered;
                  executed = executed;
                }))
        ]

    enforce-Reached :
        (w : Controlled W)
        → w.recorder.started ≡ some s
        → ((enforce c adapter a d w).1.tool ≡ w.tool) ⊎ Reached d w.tool (enforce c adapter a d w)
    unfolding enforce
    enforce-Reached w h = elim (Bool-cases (is_allow d.result)) [
      | inr e ↦ inl (rw e)
      | inl e ↦ rw e (use_adapter-Reached w adapter refl h (allowed_lem d.result e))
    ]

    enforce-IsRun :
        (w : Controlled W) → IsRun s w.recorder → IsRun s (enforce c adapter a d w).1.recorder
    unfolding enforce use_adapter
    enforce-IsRun w v = elim (Bool-cases (is_allow d.result)) [
      | inr e ↦ rw e v
      | inl e ↦ rw e (used adapter)
    ]
      where
        used : (t : Option (ToolAdapter W)) → IsRun s (use_adapter c a d t w).1.recorder
        used none = v
        used (some t) =
            elim (Bool-cases
              (not (t.name == c.tool_name) || not (t.action_type == c.action_type))) [
                | inl e ↦ rw e v
                | inr e ↦ rw e (settle_tool-IsRun _ _ v)
              ]

module _ (p : Platform) (sha256 : Canonical → String) {W : Type 0} (c : ControlCall)
    (adapter : Option (ToolAdapter W)) where
  -- The action that the call proposes.
  abbrev pub proposed_by : Started → ActionProposal
  proposed_by s = record {
    action_id = c.action_uuid;
    run_id = s.run_id;
    tool_name = c.tool_name;
    action_type = c.action_type;
    target = c.target;
    payload = get_or [] c.payload;
    proposed_at = c.action_clock;
    reason = c.reason;
  }

  module _ (s : Started) (records : List AuthorityRecord) where
    abbrev Outcome : W → Result Answer × Controlled W → Type 0
    Outcome before out =
        ((out.1.tool ≡ before)
          ⊎ ((d : PolicyDecision) × Reached c adapter d before out
              × IsPermitted p sha256 s.frame records c.now (proposed_by s)))
        × IsRun s out.1.recorder

    -- What follows the evaluation.
    judged-Outcome :
        (j : Result (PolicyDecision × Option BlockedAction)) (w : Controlled W)
        → IsRun s w.recorder
        → ((d : PolicyDecision) (b : Option BlockedAction)
            → j ≡ ok (d, b)
            → d.result ≡ PolicyResult.allow
            → IsPermitted p sha256 s.frame records c.now (proposed_by s))
        → Outcome w.tool (continue j (λ judged. enforce c adapter (proposed_by s) judged.0) w)
    judged-Outcome (raise e) w v permit = (inl refl, v)
    judged-Outcome (ok (d, b)) w v permit = (
      elim (enforce-Reached c adapter s (proposed_by s) d w v.started) [
        | inl kept ↦ inl kept
        | inr r ↦ inr (d, r, permit d b refl r.allowed)
      ],
      enforce-IsRun c adapter s (proposed_by s) d w v,
    )

  -- Within a run, a call under control leaves the tool as it was, or the gate has allowed the
  -- proposed action on the frame and the authority records of the run, and the adapter is the one of
  -- the approved tool and action type: then the tool has run once, on the approved target and
  -- payload, and the call returns the decision and says that it has. The recorder stays within the
  -- run.
  pub execute_with_control-Reached :
      (s : Started) (w : Controlled W)
      → IsRun s w.recorder
      → (((execute_with_control p sha256 c adapter w).1.tool ≡ w.tool)
          ⊎ ((d : PolicyDecision) × Reached c adapter d w.tool
                (execute_with_control p sha256 c adapter w)
              × IsPermitted p sha256 s.frame w.recorder.authority_records c.now (proposed_by s)))
        × IsRun s (execute_with_control p sha256 c adapter w).1.recorder
  unfolding execute_with_control propose_action
  execute_with_control-Reached s w v =
      let r : RunRecorder = record w.recorder {
        actions = w.recorder.actions ++ proposed_by s ∷ [];
      } in
      let e = evaluation_of c (proposed_by s) in
      let judged = evaluate_action p sha256 e r in
      let w' : Controlled W = record w { recorder = judged.1 } in
      rw (require_started_lem w.recorder s v.started) (
        judged-Outcome s w.recorder.authority_records judged.0 w'
          (IsRun-evaluate_action p sha256 s e r (IsRun-propose s w.recorder v (proposed_by s) refl))
          (λ d b returned allowed.
            let (t, decided) =
              evaluate_action-ok p sha256 s c (proposed_by s) r d b v.started returned in
            allowed-IsPermitted p sha256 (proposed_by s) s.frame w.recorder.authority_records c.now
              c.trace_uuid c.decision_uuid d t decided allowed))
