-- ===== src/MicrosoftAgt/Sdk.antt =====
-- src/agent_control_plane/microsoft_agt.py: `MicrosoftAgtSdkBackend`. The runtime client belongs to
-- the SDK: it is a parameter. An attribute that the code reads by `getattr` with a default is an
-- `Option`.
use cognous_agent_control_pl.Base.{
  String, Bool, true, false, Option, none, some, List, [], ◌∷◌, map, get_or, Dict, put, fstring,
}
use cognous_agent_control_pl.Base.Outcome.{exn_name, Result, ok, raise}
use cognous_agent_control_pl.Bounded.Models.{Value, Fields, text, null, object, field, end}
use cognous_agent_control_pl.MicrosoftAgt.Models.{
  PolicyTarget, other, AgtDecision, ToolCallRequest, BackendAnswer, answered, unavailable,
}

-- `verdict.decision`, or its `value` where it has one: a text, or something else.
pub data RawDecision : Type 0 where
  named : String → RawDecision
  unnamed : RawDecision

pub data RawWarning : Type 0 where
  mapping : Dict Value → RawWarning
  object_with : Option String → Option String → RawWarning

pub record RawEvidence : Type 0 where
  pub artefact : Option String
  pub verification_pointers : Option (Dict String)

pub record RawVerdict : Type 0 where
  pub decision : Option RawDecision
  pub reason : Option String
  pub message : Option String
  pub warnings : Option (List RawWarning)
  pub evidence : Option RawEvidence

-- The result of `evaluate_intervention_point`; a flag that is missing is false.
pub record RawResult : Type 0 where
  pub verdict : Option RawVerdict
  pub transformed_policy_target : Option PolicyTarget
  pub transformed_policy_target_applied : Option Bool
  pub input_identity : Option String
  pub enforced_identity : Option String

abbrev text_value : Option String → Value
text_value none = null
text_value (some s) = text s

unfoldable pub warning_of : RawWarning → Dict Value
warning_of (RawWarning.mapping d) = d
warning_of (object_with reason message) =
    ("reason", text_value reason) ∷ ("message", text_value message) ∷ []

abbrev pointers_of : Option RawEvidence → Dict String
pointers_of none = []
pointers_of (some e) = get_or [] e.verification_pointers

abbrev artefact_of : Option RawEvidence → Option String
artefact_of none = none
artefact_of (some e) = e.artefact

unfoldable pub decision_of_verdict : RawResult → RawVerdict → String → AgtDecision
unfolding warning_of
decision_of_verdict r v decision = record {
  decision = decision;
  reason = v.reason;
  message = v.message;
  transformed_policy_target = get_or other r.transformed_policy_target;
  transformed_policy_target_applied = get_or false r.transformed_policy_target_applied;
  warnings = map warning_of (get_or [] v.warnings);
  evidence_artefact = artefact_of v.evidence;
  evidence_verification_pointers = pointers_of v.evidence;
  input_identity = r.input_identity;
  enforced_identity = r.enforced_identity;
}

abbrev missing_decision : BackendAnswer
missing_decision = unavailable "unsupported AGT response: missing verdict.decision"

read_decision : RawResult → RawVerdict → Option RawDecision → BackendAnswer
unfolding decision_of_verdict
read_decision r v none = missing_decision
read_decision r v (some unnamed) = unavailable "unsupported AGT response: non-string decision"
read_decision r v (some (named s)) = answered (decision_of_verdict r v s)

-- From what the client returned or raised.
unfoldable pub read_result : Result RawResult → BackendAnswer
unfolding read_decision
read_result (raise e) =
    unavailable
      (fstring ("AGT pre_tool_call evaluation failed: " ∷ exn_name e.kind ∷ ": " ∷ e.message ∷ []))
read_result (ok r) = elim r.verdict [
  | none ↦ missing_decision
  | some v ↦ read_decision r v v.decision
]

-- `dict` as a JSON value
unfoldable pub fields : Dict Value → Fields
fields [] = end
fields ((k, v) ∷ d) = field k v (fields d)

abbrev with_id : Option String → Dict Value → Dict Value
with_id none d = d
with_id (some id) d = put "id" (text id) d

-- The snapshot that the request carries.
unfoldable pub raw_snapshot : ToolCallRequest → Dict Value
unfolding fields
raw_snapshot q =
    let tool_call =
      with_id q.tool_call_id
        (("name", text q.tool_name) ∷ ("args", object (fields q.arguments)) ∷ []) in
    put "tool_call" (object (fields tool_call)) (put "tenant_id" (text q.tenant_id) q.snapshot)

module _ {W : Type 0} (installed : Bool) (client : Dict Value → W → Result RawResult × W) where
  -- `evaluate_pre_tool_call`, where `installed` tells that the SDK can be imported.
  unfoldable pub sdk_evaluate : ToolCallRequest → W → BackendAnswer × W
  unfolding read_result raw_snapshot
  sdk_evaluate q w = elim installed [
    | false ↦ (unavailable "agent-control-specification is not installed", w)
    | true ↦ (let (r, w') = client (raw_snapshot q) w in (read_result r, w'))
  ]
