-- ===== src/Examples/Policies.antt =====
-- The theorems of the policy gate, run on one write.
use cognous_agent_control_pl.Base.{
  String, true, false, some, none, List, [], ◌∷◌, ◌≡◌, ◌⊎◌, refl, mem,
}
use cognous_agent_control_pl.Base.Outcome.{Exn, ok, raise}
use cognous_agent_control_pl.Bounded.Documents.{parse}
use cognous_agent_control_pl.Policy.Models.{
  Frame, ActionProposal, AuthorityRecord, PolicyResult, PolicyDecision, PolicyEvaluationTrace,
}
use cognous_agent_control_pl.Policy.Gate.{
  Verdict, Canonical, apply_rules, active_scopes, evaluate, evaluate_with_trace, canonical_inputs,
}
use cognous_agent_control_pl.Policy.Rules.{table, IsTrace, apply_rules-table}
use cognous_agent_control_pl.Policy.Scopes.{Grants}
use cognous_agent_control_pl.Policy.Allow.{Explains, evaluate-allow, evaluate_with_trace-Explains}
use cognous_agent_control_pl.Examples.Clock.{unary, read, print}

abbrev pub office_frame : Frame
office_frame = record {
  frame_id = "frame-1";
  task = "close the case";
  actor = "agent";
  environment = "test";
  allowed_tools = "mail" ∷ "notes" ∷ [];
  blocked_tools = "shell" ∷ [];
  policy_version = "1";
  created_at = "T";
}

abbrev pub write_note : ActionProposal
write_note = record {
  action_id = "action-1";
  run_id = "run-1";
  tool_name = "notes";
  action_type = "write";
  target = "case-7";
  payload = [];
  proposed_at = "T";
  reason = none;
}

abbrev old_authority : AuthorityRecord
old_authority = record {
  authority_id = "authority-1";
  run_id = "run-1";
  actor = "agent";
  scope = "external_send" ∷ [];
  expires_at = some "Txx";
  source = "user_consent";
  created_at = "T";
}

abbrev write_authority : AuthorityRecord
write_authority = record old_authority {
  authority_id = "authority-2";
  scope = "write" ∷ [];
  expires_at = some "Txxxxx";
}

abbrev authorities : List AuthorityRecord
authorities = old_authority ∷ write_authority ∷ []

abbrev pub by_name : Canonical → String
by_name x = x.tool_name

abbrev pub note_allowed : PolicyDecision
note_allowed = record {
  decision_id = "decision-1";
  action_id = "action-1";
  run_id = "run-1";
  result = PolicyResult.allow;
  policy_name = "write_authority_policy";
  reason = "Authority for 'write' is present; action allowed.";
  decided_at = "Txxx";
  deterministic_fingerprint = "notes";
  trace_id = none;
}

note-allowed :
    evaluate unary by_name write_note office_frame authorities 3 "decision-1" ≡ ok note_allowed
unfolding evaluate parse read print canonical_inputs
note-allowed = refl

scopes_now : active_scopes unary by_name write_note office_frame 3 authorities ≡ ok ("write" ∷ [])
unfolding active_scopes parse read
scopes_now = refl

apply_rules-table_example :
    (v : Verdict) × (apply_rules write_note office_frame ("write" ∷ []) ≡ ok v)
    × ((v.result, v.policy_name)
        ≡ table
            (mem "notes" office_frame.blocked_tools)
            (mem "notes" office_frame.allowed_tools)
            "write"
            ("write" ∷ []))
    × IsTrace v.trace_rules v.result v.policy_name
apply_rules-table_example = apply_rules-table write_note office_frame ("write" ∷ [])

evaluate-allow_example :
    (mem "notes" office_frame.blocked_tools ≡ false)
    × (mem "notes" office_frame.allowed_tools ≡ true)
    × ((write_note.action_type ≡ "read")
        ⊎ ((write_note.action_type ≡ "write")
            × Grants unary by_name write_note office_frame 3 "write" authorities)
        ⊎ ((write_note.action_type ≡ "external_send")
            × Grants unary by_name write_note office_frame 3 "external_send" authorities))
evaluate-allow_example =
    evaluate-allow unary by_name write_note office_frame authorities 3 "decision-1" note_allowed
      note-allowed refl

evaluate_with_trace-Explains_example :
    ((e : Exn) × (active_scopes unary by_name write_note office_frame 3 authorities ≡ raise e)
      × (evaluate unary by_name write_note office_frame authorities 3 "decision-1" ≡ raise e)
      × (evaluate_with_trace unary by_name write_note office_frame authorities 3 "trace-1"
            "decision-1"
          ≡ raise e))
    ⊎ ((d : PolicyDecision) × (t : PolicyEvaluationTrace) × (evaluate_with_trace unary by_name
            write_note office_frame authorities 3 "trace-1" "decision-1"
          ≡ ok (d, t))
        × (evaluate unary by_name write_note office_frame authorities 3 "decision-1"
            ≡ ok (record d { trace_id = none }))
        × Explains unary by_name d t)
evaluate_with_trace-Explains_example =
    evaluate_with_trace-Explains unary by_name write_note office_frame authorities 3 "trace-1"
      "decision-1"
