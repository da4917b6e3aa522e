-- ===== src/Records/Recorder/Evaluate.antt =====
-- src/agent_control_plane/records.py: `evaluate_action`, over the policy gate, and the calls that a
-- client may make of a started recorder.
use cognous_agent_control_pl.Base.{
  ℕ, String, Bool, true, false, Option, none, some, List, [], ◌∷◌, ◌++◌, not, ◌==◌, any,
  if◌then◌else◌,
}
use cognous_agent_control_pl.Base.Outcome.{value_error, ok, Exec, pure, throw, lift, ◌>>=◌, ◌>>◌}
use cognous_agent_control_pl.Bounded.Documents.{Platform}
use cognous_agent_control_pl.Policy.Models.{
  ActionProposal, PolicyResult, PolicyEvaluationTrace, PolicyDecision,
}
use cognous_agent_control_pl.Policy.Gate.{Canonical, evaluate, evaluate_with_trace}
use cognous_agent_control_pl.Records.Models.{BlockedAction, ReplayBundle}
use cognous_agent_control_pl.Records.Replay.{generate_replay_bundle}
use cognous_agent_control_pl.Records.Recorder.{
  Started, RunRecorder, require_started, AuthorityCall, add_authority_record, ProposeCall,
  propose_action, RelianceCall, record_reliance, complete_run, to_run_record,
}

pub record EvaluateCall : Type 0 where
  pub action : ActionProposal
  pub include_trace : Bool
  pub now : ℕ
  pub trace_uuid : String
  pub decision_uuid : String
  pub blocked_uuid : String
  pub clock : String

unfoldable pub is_block : PolicyResult → Bool
is_block PolicyResult.block = true
is_block _ = false

-- `proposed.action_id == action.action_id for proposed in self._actions`
unfoldable pub is_proposed : String → List ActionProposal → Bool
is_proposed id actions = any (λ a. a.action_id == id) actions

unfoldable pub blocked_action : Started → EvaluateCall → PolicyDecision → BlockedAction
blocked_action s c d = record {
  blocked_id = c.blocked_uuid;
  action_id = c.action.action_id;
  run_id = s.run_id;
  reason = d.reason;
  policy_name = d.policy_name;
  blocked_at = c.clock;
}

-- From the decision on.
unfoldable pub note_decision :
    Started
    → EvaluateCall
    → PolicyDecision
    → Exec RunRecorder (PolicyDecision × Option BlockedAction)
unfolding blocked_action is_block
note_decision s c d r =
    let r' : RunRecorder = record r { decisions = r.decisions ++ d ∷ [] } in
    if is_block d.result
    then (
      ok (d, some (blocked_action s c d)),
      record r' { blocked_actions = r.blocked_actions ++ blocked_action s c d ∷ [] },
    )
    else (ok (d, none), r')

unfoldable pub note_trace : PolicyEvaluationTrace → Exec RunRecorder Unit
note_trace t r = (ok tt, record r { policy_traces = r.policy_traces ++ t ∷ [] })

-- The method of the recorder, which also keeps the identifier of the bundle.
unfoldable pub bundle_run : String → String → Exec RunRecorder ReplayBundle
unfolding generate_replay_bundle
bundle_run uuid clock = do
  x ← to_run_record
  let b = generate_replay_bundle uuid clock x
  λ r. (ok b, record r { replay_bundle_id = some b.replay_bundle_id })

-- The methods that change a recorder within a run.
pub data RecorderCall : Type 0 where
  authority : AuthorityCall → RecorderCall
  propose : ProposeCall → RecorderCall
  evaluation : EvaluateCall → RecorderCall
  reliance : RelianceCall → RecorderCall
  complete : Option String → RecorderCall
  bundle : String → String → RecorderCall

module _ (p : Platform) (sha256 : Canonical → String) where
  -- The call of the gate, with `include_trace` as its first argument.
  unfoldable pub judge : Bool → Started → EvaluateCall → Exec RunRecorder PolicyDecision
  unfolding note_trace
  judge true s c r =
      (do
        judged ← lift (
            evaluate_with_trace p sha256 c.action s.frame r.authority_records c.now c.trace_uuid
              c.decision_uuid)
        note_trace judged.1
        pure judged.0)
        r
  judge false s c r =
      lift (evaluate p sha256 c.action s.frame r.authority_records c.now c.decision_uuid) r

  unfoldable pub evaluate_action :
      EvaluateCall → Exec RunRecorder (PolicyDecision × Option BlockedAction)
  unfolding judge note_decision is_proposed
  evaluate_action c = do
    s ← require_started
    λ r.
        if not (c.action.run_id == s.run_id)
        then throw value_error "Action belongs to a different run." r
        else (if not (is_proposed c.action.action_id r.actions)
            then throw value_error "Action was not proposed in this run." r
            else (do d ← judge c.include_trace s c; note_decision s c d) r)

  unfoldable pub after_call : RecorderCall → RunRecorder → RunRecorder
  unfolding add_authority_record propose_action evaluate_action record_reliance complete_run
      bundle_run
  after_call (authority c) r = (add_authority_record c r).1
  after_call (propose c) r = (propose_action c r).1
  after_call (evaluation c) r = (evaluate_action c r).1
  after_call (reliance c) r = (record_reliance c r).1
  after_call (complete o) r = (complete_run o r).1
  after_call (bundle uuid clock) r = (bundle_run uuid clock r).1

  -- The calls of a client that goes on after an exception.
  unfoldable pub after_calls : List RecorderCall → RunRecorder → RunRecorder
  unfolding after_call
  after_calls [] r = r
  after_calls (c ∷ cs) r = after_calls cs (after_call c r)
