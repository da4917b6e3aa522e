-- ===== src/Records/Recorder/Calls.antt =====
-- Every method keeps what holds of a recorder within a run.
use cognous_agent_control_pl.Base.{
  ℕ, String, Bool, true, false, Option, none, some, List, [], ◌∷◌, ◌++◌, ◌≡◌, refl, sym, ap, ◌∙◌,
  inl, inr, any, arith, ◌==◌, eq_iff, Bool-cases,
}
use cognous_agent_control_pl.Base.Outcome.{Result, ok, raise, lift, pure, ◌>>=◌, ◌>>◌, bind-eq-ok}
use cognous_agent_control_pl.Bounded.Documents.{Platform}
use cognous_agent_control_pl.Policy.Models.{
  Frame, ActionProposal, PolicyEvaluationTrace, PolicyDecision, AuthorityRecord,
}
use cognous_agent_control_pl.Policy.Gate.{
  Canonical, evaluate, evaluate_with_trace, active_scopes, apply_rules, decision_of, trace_of,
}
use cognous_agent_control_pl.Records.Recorder.{
  Started, RunRecorder, AuthorityCall, add_authority_record, ProposeCall, propose_action,
  RelianceCall, record_reliance, complete_run, require_started_lem, to_run_record_lem,
}
use cognous_agent_control_pl.Records.Recorder.Evaluate.{
  EvaluateCall, is_block, is_proposed, blocked_action, note_decision, note_trace, judge,
  evaluate_action, bundle_run, RecorderCall, authority, propose, evaluation, reliance, complete,
  bundle, after_call, after_calls,
}
use cognous_agent_control_pl.Records.Recorder.Invariant.{
  OfRun, Traced, IsRun, append-HasTrace, mem-is_proposed, IsRun-propose, IsRun-note_trace,
  IsRun-decision, IsRun-block, IsRun-authority, IsRun-reliance, IsRun-complete, IsRun-bundle,
}
use cognous_agent_control_pl.Records.Validation.Errors.{blocks_action, any-append}

blocks_itself :
    (id : String) (d : PolicyDecision) (ds : List PolicyDecision)
    → d.action_id ≡ id
    → is_block d.result ≡ true
    → any (blocks_action id) (ds ++ d ∷ []) ≡ true
blocks_itself id d ds same h =
    ground (arith, any-append (blocks_action id) ds (d ∷ []), eq_iff d.action_id id)

OfRun-same :
    (run : String) (actions : List ActionProposal) (run_id run_id' action_id action_id' : String)
    → run_id ≡ run_id'
    → action_id ≡ action_id'
    → OfRun run actions run_id' action_id'
    → OfRun run actions run_id action_id
OfRun-same run actions run_id run_id' action_id action_id' h k v = rw (h, k) v

same_value : {d e : PolicyDecision} → ok d ≡ ok e → e ≡ d
same_value h = cc

same_pair :
    {d e : PolicyDecision} {t u : PolicyEvaluationTrace}
    → ◌≡◌ {A = Result (PolicyDecision × PolicyEvaluationTrace)} (ok (d, t)) (ok (e, u))
    → (e ≡ d) × (u ≡ t)
same_pair h = (cc, cc)

module _ (p : Platform) (sha256 : Canonical → String) (a : ActionProposal) (f : Frame)
    (records : List AuthorityRecord) (now : ℕ) where
  -- What a decision of the gate is about.
  evaluate-about :
      (decision_id : String) (d : PolicyDecision)
      → evaluate p sha256 a f records now decision_id ≡ ok d
      → (d.run_id ≡ a.run_id) × (d.action_id ≡ a.action_id) × (d.trace_id ≡ none)
  unfolding evaluate decision_of
  evaluate-about decision_id d h =
      let (scopes, _, h') = bind-eq-ok (active_scopes p sha256 a f now records) _ h in
      let (v, _, e) = bind-eq-ok (apply_rules a f scopes) _ h' in
      let same = same_value e in
      (ap (λ x. x.run_id) same, ap (λ x. x.action_id) same, ap (λ x. x.trace_id) same)

  evaluate_with_trace-about :
      (trace_id decision_id : String) (d : PolicyDecision) (t : PolicyEvaluationTrace)
      → evaluate_with_trace p sha256 a f records now trace_id decision_id ≡ ok (d, t)
      → (d.run_id ≡ a.run_id)
        × (d.action_id ≡ a.action_id)
        × (t.run_id ≡ a.run_id)
        × (t.action_id ≡ a.action_id)
        × (d.trace_id ≡ some t.trace_id)
        × (t.deterministic_fingerprint ≡ d.deterministic_fingerprint)
  unfolding evaluate_with_trace decision_of trace_of
  evaluate_with_trace-about trace_id decision_id d t h =
      let (scopes, _, h') = bind-eq-ok (active_scopes p sha256 a f now records) _ h in
      let (v, _, e) = bind-eq-ok (apply_rules a f scopes) _ h' in
      let (same, traced) = same_pair e in
      (
        ap (λ x. x.run_id) same,
        ap (λ x. x.action_id) same,
        ap (λ x. x.run_id) traced,
        ap (λ x. x.action_id) traced,
        ap (λ x. x.trace_id) same ∙ sym (ap (λ x. some x.trace_id) traced),
        ap (λ x. x.deterministic_fingerprint) traced
            ∙ sym (ap (λ x. x.deterministic_fingerprint) same),
      )

module _ (s : Started) (c : EvaluateCall) where
  IsRun-note_decision :
      (d : PolicyDecision) (r : RunRecorder)
      → IsRun s r
      → OfRun s.run_id r.actions d.run_id d.action_id
      → Traced d.trace_id d.deterministic_fingerprint r.policy_traces
      → c.action.action_id ≡ d.action_id
      → IsRun s (note_decision s c d r).1
  unfolding note_decision blocked_action
  IsRun-note_decision d r v h t same = elim (Bool-cases (is_block d.result)) [
    | inr e ↦ rw e (IsRun-decision s r v d h t)
    | inl e ↦ rw e (
        IsRun-block s (record r { decisions = r.decisions ++ d ∷ [] }) (IsRun-decision s r v d h t)
          (blocked_action s c d)
          (OfRun-same s.run_id r.actions s.run_id d.run_id _ d.action_id (sym h.0) same h)
          (blocks_itself c.action.action_id d r.decisions (sym same) e))
  ]

module _ (p : Platform) (sha256 : Canonical → String) (s : Started) (c : EvaluateCall) where
  -- A call of the gate without a trace.
  IsRun-untraced :
      (r : RunRecorder) (o : Result PolicyDecision)
      → IsRun s r
      → OfRun s.run_id r.actions c.action.run_id c.action.action_id
      → evaluate p sha256 c.action s.frame r.authority_records c.now c.decision_uuid ≡ o
      → IsRun s ((do d ← lift o; note_decision s c d) r).1
  IsRun-untraced r (raise e) v h returned = v
  IsRun-untraced r (ok d) v h returned =
      let (run, action, trace) =
        evaluate-about p sha256 c.action s.frame r.authority_records c.now c.decision_uuid d
          returned in
      IsRun-note_decision s c d r v (OfRun-same s.run_id r.actions _ _ _ _ run action h)
        (rw trace tt) (sym action)

  -- A call of the gate with a trace.
  IsRun-traced :
      (r : RunRecorder) (o : Result (PolicyDecision × PolicyEvaluationTrace))
      → IsRun s r
      → OfRun s.run_id r.actions c.action.run_id c.action.action_id
      → evaluate_with_trace p sha256 c.action s.frame r.authority_records c.now c.trace_uuid
          c.decision_uuid
        ≡ o
      → IsRun s ((do judged ← lift o; note_trace judged.1; note_decision s c judged.0) r).1
  unfolding note_trace
  IsRun-traced r (raise e) v h returned = v
  IsRun-traced r (ok (d, t)) v h returned =
      let (run, action, trace_run, trace_action, trace, fingerprint) =
        evaluate_with_trace-about p sha256 c.action s.frame r.authority_records c.now c.trace_uuid
          c.decision_uuid d t returned in
      IsRun-note_decision s c d (record r { policy_traces = r.policy_traces ++ t ∷ [] })
        (IsRun-note_trace s r v t (OfRun-same s.run_id r.actions _ _ _ _ trace_run trace_action h))
        (OfRun-same s.run_id r.actions _ _ _ _ run action h)
        (rw (trace, ← fingerprint) (append-HasTrace t r.policy_traces)) (sym action)

  IsRun-judged :
      (include_trace : Bool) (r : RunRecorder)
      → IsRun s r
      → OfRun s.run_id r.actions c.action.run_id c.action.action_id
      → IsRun s ((do d ← judge p sha256 include_trace s c; note_decision s c d) r).1
  unfolding judge
  IsRun-judged false r v h = IsRun-untraced r _ v h refl
  IsRun-judged true r v h =
      judged
        (evaluate_with_trace p sha256 c.action s.frame r.authority_records c.now c.trace_uuid
          c.decision_uuid)
        (IsRun-traced r _ v h refl)
    where
      judged :
          (o : Result (PolicyDecision × PolicyEvaluationTrace))
          → IsRun s ((do x ← lift o; note_trace x.1; note_decision s c x.0) r).1
          → IsRun s
              ((do
                d ← do x ← lift o; note_trace x.1; pure x.0
                note_decision s c d)
                r).1
      judged (raise e) k = k
      judged (ok (d, t)) k = k

  pub IsRun-evaluate_action :
      (r : RunRecorder) → IsRun s r → IsRun s (evaluate_action p sha256 c r).1
  unfolding evaluate_action
  IsRun-evaluate_action r v =
      rw (require_started_lem r s v.started) (elim (Bool-cases (c.action.run_id == s.run_id)) [
        | inr e ↦ rw e v
        | inl e ↦ elim (Bool-cases (is_proposed c.action.action_id r.actions)) [
          | inr g ↦ rw (e, g) v
          | inl g ↦
              rw (e, g)
                (IsRun-judged c.include_trace r v
                  ((eq_iff _ _).0 e, mem-is_proposed c.action.action_id r.actions g))
        ]
      ])

IsRun-add_authority_record :
    (s : Started) (c : AuthorityCall) (r : RunRecorder)
    → IsRun s r
    → IsRun s (add_authority_record c r).1
unfolding add_authority_record
IsRun-add_authority_record s c r v =
    rw (require_started_lem r s v.started) (IsRun-authority s r v _ refl)

IsRun-propose_action :
    (s : Started) (c : ProposeCall) (r : RunRecorder) → IsRun s r → IsRun s (propose_action c r).1
unfolding propose_action
IsRun-propose_action s c r v = rw (require_started_lem r s v.started) (IsRun-propose s r v _ refl)

pub IsRun-record_reliance :
    (s : Started) (c : RelianceCall) (r : RunRecorder) → IsRun s r → IsRun s (record_reliance c r).1
unfolding record_reliance
IsRun-record_reliance s c r v = rw (require_started_lem r s v.started) (IsRun-reliance s r v _ refl)

IsRun-complete_run :
    (s : Started) (c : Option String) (r : RunRecorder) → IsRun s r → IsRun s (complete_run c r).1
unfolding complete_run
IsRun-complete_run s c r v = rw (require_started_lem r s v.started) (IsRun-complete s r v c)

IsRun-bundle_run :
    (s : Started) (uuid clock : String) (r : RunRecorder)
    → IsRun s r
    → IsRun s (bundle_run uuid clock r).1
unfolding bundle_run
IsRun-bundle_run s uuid clock r v = rw (to_run_record_lem r s v.started) (IsRun-bundle s r v _)

module _ (p : Platform) (sha256 : Canonical → String) (s : Started) where
  IsRun-after_call :
      (c : RecorderCall) (r : RunRecorder) → IsRun s r → IsRun s (after_call p sha256 c r)
  unfolding after_call
  IsRun-after_call (evaluation c) r v = IsRun-evaluate_action p sha256 s c r v
  IsRun-after_call (propose c) r v = IsRun-propose_action s c r v
  IsRun-after_call (authority c) r v = IsRun-add_authority_record s c r v
  IsRun-after_call (reliance c) r v = IsRun-record_reliance s c r v
  IsRun-after_call (complete o) r v = IsRun-complete_run s o r v
  IsRun-after_call (bundle uuid clock) r v = IsRun-bundle_run s uuid clock r v

  -- Whatever the client calls, what holds of the recorder within the run stays.
  pub IsRun-after_calls :
      (cs : List RecorderCall) (r : RunRecorder) → IsRun s r → IsRun s (after_calls p sha256 cs r)
  unfolding after_calls
  IsRun-after_calls [] r v = v
  IsRun-after_calls (c ∷ cs) r v =
      IsRun-after_calls cs (after_call p sha256 c r) (IsRun-after_call c r v)
