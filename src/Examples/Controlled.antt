-- ===== src/Examples/Controlled.antt =====
-- A call under control of a tool whose state is the list of what it was called on, and a call
-- through the Microsoft gate.
use cognous_agent_control_pl.Base.{
  ℕ, suc, if◌then◌else◌, String, false, some, none, List, [], ◌∷◌, ◌≡◌, ◌⊎◌, ◌↔◌, refl, ◌==◌, strip,
}
use cognous_agent_control_pl.Base.Outcome.{ok}
use cognous_agent_control_pl.Bounded.Documents.{parse}
use cognous_agent_control_pl.Policy.Models.{PolicyDecision}
use cognous_agent_control_pl.Policy.Gate.{evaluate_with_trace, canonical_inputs}
use cognous_agent_control_pl.Records.Recorder.{
  Started, RunRecorder, new_recorder, create_frame, propose_action, require_started,
  record_reliance,
}
use cognous_agent_control_pl.Records.Recorder.Evaluate.{evaluate_action}
use cognous_agent_control_pl.Records.Recorder.Invariant.{IsRun}
use cognous_agent_control_pl.Records.Tools.{
  ToolAdapter, ControlCall, Controlled, execute_with_control,
}
use cognous_agent_control_pl.Records.Tools.Reached.{
  Reached, IsPermitted, proposed_by, execute_with_control-Reached,
}
use cognous_agent_control_pl.MicrosoftAgt.Models.{
  AgtDecision, answered, Services, CompatibilityOutcome,
}
use cognous_agent_control_pl.MicrosoftAgt.Adapter.{GateCall, agt_unavailable, gate, finish}
use cognous_agent_control_pl.MicrosoftAgt.Conjunction.{Agreed, gate_iff}
use cognous_agent_control_pl.Examples.Clock.{unary, read, print}
use cognous_agent_control_pl.Examples.Policies.{by_name}
use cognous_agent_control_pl.Examples.Recorded.{office_run}
use cognous_agent_control_pl.Examples.Refund.{refund_proposal}
use cognous_agent_control_pl.Examples.Records.{refund_decision}

abbrev notebook : ToolAdapter (List String)
notebook = record {
  name = "notes";
  action_type = "read";
  execute = λ target payload log. (ok [], target ∷ log);
}

abbrev read_note : ControlCall
read_note = record {
  tool_name = "notes";
  action_type = "read";
  target = "case-7";
  payload = none;
  reason = none;
  action_uuid = "action-1";
  action_clock = "T";
  now = 3;
  trace_uuid = "trace-1";
  decision_uuid = "decision-1";
  blocked_uuid = "blocked-1";
  blocked_clock = "T";
  reliance_uuid = "reliance-1";
  reliance_clock = "T";
}

abbrev office : Started
office = record {
  run_id = "run-1";
  task = "close the case";
  created_at = "T";
  frame = create_frame office_run;
}

abbrev office_recorder : RunRecorder
office_recorder = record new_recorder { started = some office }

abbrev at_work : Controlled (List String)
at_work = record { recorder = office_recorder; tool = [] }

office-IsRun : IsRun office office_recorder
office-IsRun = record {
  started = refl;
  actions = tt;
  decisions = tt;
  blocked = tt;
  reliance = tt;
  authority = tt;
  traces = tt;
}

-- The tool is read once.
note_read :
    (execute_with_control unary by_name read_note (some notebook) at_work).1.tool ≡ "case-7" ∷ []
unfolding execute_with_control propose_action require_started evaluate_action evaluate_with_trace
    parse read print canonical_inputs create_frame record_reliance
note_read = refl

execute_with_control-Reached_example :
    (((execute_with_control unary by_name read_note (some notebook) at_work).1.tool ≡ [])
      ⊎ ((d : PolicyDecision) × Reached read_note
            (some notebook)
            d
            []
            (execute_with_control unary by_name read_note (some notebook) at_work)
          × IsPermitted unary by_name office.frame [] 3
              (proposed_by unary by_name read_note (some notebook) office)))
    × IsRun office (execute_with_control unary by_name read_note (some notebook) at_work).1.recorder
execute_with_control-Reached_example =
    execute_with_control-Reached unary by_name read_note (some notebook) office at_work office-IsRun

abbrev allowing : AgtDecision
allowing = record (agt_unavailable "" none) { decision = " ALLOW"; reason = none }

-- Both services count their calls; the authority authorizes everything.
abbrev agreeing : Services ℕ
agreeing = record {
  evaluate_pre_tool_call = λ q n. (answered allowing, suc n);
  authorize = λ q tenant now n. (ok refund_decision, suc n);
}

lower_allow : String → String
lower_allow s = if s == " ALLOW" then " allow" else s

abbrev refund_gate : GateCall
refund_gate = record {
  tenant_id = some " tenant-1 ";
  proposal = refund_proposal;
  tool_name = "refund";
  tool_call_id = none;
  snapshot = none;
  now = none;
}

-- The gate authorizes the call, and both services have been asked.
refund_agreed : (gate unary agreeing lower_allow refund_gate 0) ≡ (
  ok (
      finish unary refund_gate "tenant-1" allowing CompatibilityOutcome.authorized
        (some refund_proposal)
        (some refund_decision)
        false
        []),
  2,
)
unfolding gate strip lower_allow
refund_agreed = refl

gate_iff_example :
    (((gate unary agreeing lower_allow refund_gate 0).0
        ≡ ok (
            finish unary refund_gate "tenant-1" allowing CompatibilityOutcome.authorized
              (some refund_proposal)
              (some refund_decision)
              false
              []))
      × (CompatibilityOutcome.authorized ≡ CompatibilityOutcome.authorized))
    ↔ Agreed unary agreeing lower_allow refund_gate 0 (
        finish unary refund_gate "tenant-1" allowing CompatibilityOutcome.authorized
          (some refund_proposal)
          (some refund_decision)
          false
          [])
unfolding finish
gate_iff_example = gate_iff unary agreeing lower_allow refund_gate 0 (
    finish unary refund_gate "tenant-1" allowing CompatibilityOutcome.authorized
      (some refund_proposal) (some refund_decision) false [])
