-- ===== src/Records/Tools.antt =====
-- src/agent_control_plane/tools.py: `execute_with_control`. A tool adapter is not part of the
-- program: it is a parameter, which acts on a state of its own and may raise.
pub mod Reached
use cognous_agent_control_pl.Base.{
  ℕ, String, Bool, true, false, Option, none, some, [], ◌∷◌, ◌||◌, not, ◌==◌, get_or, if◌then◌else◌,
  Dict, fstring,
}
use cognous_agent_control_pl.Base.Outcome.{
  Exn, Result, ok, raise, Exec, pure, attempting, ◌>>=◌, ◌>>◌,
}
use cognous_agent_control_pl.Bounded.Models.{Value}
use cognous_agent_control_pl.Bounded.Documents.{Platform}
use cognous_agent_control_pl.Policy.Models.{ActionProposal, PolicyResult, PolicyDecision}
use cognous_agent_control_pl.Policy.Gate.{Canonical}
use cognous_agent_control_pl.Records.Models.{BlockedAction, SourceType, ToolExecutionResult}
use cognous_agent_control_pl.Records.Recorder.{
  RunRecorder, ProposeCall, propose_action, RelianceCall, record_reliance,
}
use cognous_agent_control_pl.Records.Recorder.Evaluate.{EvaluateCall, evaluate_action}

-- The adapter's fields, and `execute` on the tool's state.
pub record ToolAdapter (W : Type 0) : Type 0 where
  pub name : String
  pub action_type : String
  pub execute : String → Dict Value → Exec W (Dict Value)

-- The arguments, and what the methods of the recorder draw.
pub record ControlCall : Type 0 where
  pub tool_name : String
  pub action_type : String
  pub target : String
  pub payload : Option (Dict Value)
  pub reason : Option String
  pub action_uuid : String
  pub action_clock : String
  pub now : ℕ
  pub trace_uuid : String
  pub decision_uuid : String
  pub blocked_uuid : String
  pub blocked_clock : String
  pub reliance_uuid : String
  pub reliance_clock : String

-- The recorder, and the state of the tool.
pub record Controlled (W : Type 0) : Type 0 where
  pub recorder : RunRecorder
  pub tool : W

module _ {W A : Type 0} where
  abbrev pub on_recorder : Exec RunRecorder A → Exec (Controlled W) A
  on_recorder m w = let (r, s) = m w.recorder in (r, record w { recorder = s })

  abbrev pub on_tool : Exec W A → Exec (Controlled W) A
  on_tool m w = let (r, s) = m w.tool in (r, record w { tool = s })

abbrev pub Answer : Type 0
Answer = PolicyDecision × Option ToolExecutionResult

unfoldable pub proposal_of : ControlCall → ProposeCall
proposal_of c = record {
  tool_name = c.tool_name;
  action_type = c.action_type;
  target = c.target;
  payload = some (get_or [] c.payload);
  reason = c.reason;
  uuid = c.action_uuid;
  clock = c.action_clock;
}

unfoldable pub evaluation_of : ControlCall → ActionProposal → EvaluateCall
evaluation_of c a = record {
  action = a;
  include_trace = true;
  now = c.now;
  trace_uuid = c.trace_uuid;
  decision_uuid = c.decision_uuid;
  blocked_uuid = c.blocked_uuid;
  clock = c.blocked_clock;
}

unfoldable pub reliance_of : ControlCall → ActionProposal → RelianceCall
reliance_of c a = record {
  source_name = c.tool_name;
  source_type = SourceType.tool;
  scope = fstring ("Executed " ∷ c.action_type ∷ " on " ∷ c.target ∷ []);
  referenced_action_id = some a.action_id;
  uuid = c.reliance_uuid;
  clock = c.reliance_clock;
}

-- A `ToolExecutionResult` of the action.
unfoldable pub tool_result :
    ActionProposal → Bool → Dict Value → Option String → ToolExecutionResult
tool_result a executed result error = record {
  action_id = a.action_id;
  run_id = a.run_id;
  executed = executed;
  result = result;
  error = error;
}

unfoldable pub is_allow : PolicyResult → Bool
is_allow PolicyResult.allow = true
is_allow _ = false

module _ {W : Type 0} where
  -- From what `adapter.execute` returned or raised.
  unfoldable pub settle_tool :
      ControlCall
      → ActionProposal
      → PolicyDecision
      → Result (Dict Value)
      → Exec (Controlled W) Answer
  unfolding tool_result reliance_of
  settle_tool c a d (raise e) = pure (d, some (tool_result a true [] (some e.message)))
  settle_tool c a d (ok result) = do
    _ ← on_recorder (record_reliance (reliance_of c a))
    pure (d, some (tool_result a true result none))

  -- The call of an adapter that is bound to the approved tool and action type.
  unfoldable pub use_adapter :
      ControlCall
      → ActionProposal
      → PolicyDecision
      → Option (ToolAdapter W)
      → Exec (Controlled W) Answer
  unfolding settle_tool tool_result
  use_adapter c a d none = pure (d, some (tool_result a false [] (some "No adapter provided.")))
  use_adapter c a d (some t) =
      if not (t.name == c.tool_name) || not (t.action_type == c.action_type)
      then pure (
        d,
        some (
            tool_result a false [] (
              some (
                fstring (
                  "Adapter binding mismatch: approved " ∷ c.tool_name ∷ "/" ∷ c.action_type
                  ∷ ", got " ∷ t.name ∷ "/" ∷ t.action_type ∷ "." ∷ [])))),
      )
      else (do
        result ← attempting (on_tool (t.execute c.target (get_or [] c.payload)))
        settle_tool c a d result)

  unfoldable pub enforce :
      ControlCall
      → Option (ToolAdapter W)
      → ActionProposal
      → PolicyDecision
      → Exec (Controlled W) Answer
  unfolding use_adapter is_allow
  enforce c adapter a d =
      if not (is_allow d.result) then pure (d, none) else use_adapter c a d adapter

  unfoldable pub execute_with_control :
      Platform
      → (Canonical → String)
      → ControlCall
      → Option (ToolAdapter W)
      → Exec (Controlled W) Answer
  unfolding enforce proposal_of evaluation_of
  execute_with_control p sha256 c adapter = do
    a ← on_recorder (propose_action (proposal_of c))
    judged ← on_recorder (evaluate_action p sha256 (evaluation_of c a))
    enforce c adapter a judged.0
