-- ===== src/Records/Redaction/Report.antt =====
-- A redaction changes nothing that the validation looks at, and commutes with the replay bundle.
use cognous_agent_control_pl.Base.{
  ℕ, suc, String, Bool, true, false, Option, none, some, List, [], ◌∷◌, ◌≡◌, refl, sym, ap, ◌∙◌,
  any, map, map_option, is_none, decimal, arith,
}
use cognous_agent_control_pl.Policy.Models.{ActionProposal, PolicyEvaluationTrace, PolicyDecision}
use cognous_agent_control_pl.Records.Models.{
  BlockedAction, RelianceRecord, RunRecord, ReplayBundle, ValidationIssue, RedactionConfig,
}
use cognous_agent_control_pl.Records.Replay.{generate_replay_bundle}
use cognous_agent_control_pl.Records.Validation.{
  RunContent, enumerate, action_ids, named_trace, action_issues, trace_issues, decision_issues,
  blocked_issues, reliance_issues, policy_trace_issues, unknown_reference, consistency_issues,
  content_of_record, content_of_bundle, validate_run_record, validate_replay_bundle,
}
use cognous_agent_control_pl.Records.Validation.Errors.{
  last_of, get-last_of, blocks_action, any-group_decisions,
}
use cognous_agent_control_pl.Records.Redaction.{
  hide_optional, redact_action, redact_decision, redact_blocked, redact_trace, redact_run_record,
  redact_replay_bundle,
}
use cognous_agent_control_pl.Records.Redaction.Hides.{map-same}

module _ {A : Type 0} (f f' : String → A → List ValidationIssue) where
  enumerate-map :
      (g : A → A)
      → ((i : String) (x : A) → f' i (g x) ≡ f i x)
      → (n : ℕ) (xs : List A) → enumerate f' n (map g xs) ≡ enumerate f n xs
  unfolding enumerate
  enumerate-map g h n [] = refl
  enumerate-map g h n (x ∷ xs) = rw (h (decimal n) x, enumerate-map g h (suc n) xs)

  enumerate-same :
      ((i : String) (x : A) → f' i x ≡ f i x)
      → (n : ℕ) (xs : List A) → enumerate f' n xs ≡ enumerate f n xs
  unfolding enumerate
  enumerate-same h n [] = refl
  enumerate-same h n (x ∷ xs) = rw (h (decimal n) x, enumerate-same h (suc n) xs)

is_none-hide_optional :
    (b : Bool) (s : String) (o : Option String) → is_none (hide_optional b s o) ≡ is_none o
is_none-hide_optional true s none = refl
is_none-hide_optional true s (some t) = refl
is_none-hide_optional false s o = refl

module _ (repr : String → String) (config : RedactionConfig) where
  last_of-redact :
      (id : String) (ts : List PolicyEvaluationTrace)
      → last_of id (map (redact_trace config) ts) ≡ map_option (redact_trace config) (last_of id ts)
  unfolding last_of redact_trace
  last_of-redact id [] = refl
  last_of-redact id (t ∷ ts) = ground (arith, last_of-redact id ts)

  blocks-redact :
      (id : String) (ds : List PolicyDecision)
      → any (blocks_action id) (map (redact_decision config) ds) ≡ any (blocks_action id) ds
  unfolding redact_decision
  blocks-redact id [] = refl
  blocks-redact id (d ∷ ds) = rw (blocks-redact id ds)

  module _ (c : RunContent) where
    abbrev redacted : RunContent
    redacted = record c {
      actions = map (redact_action config) c.actions;
      decisions = map (redact_decision config) c.decisions;
      blocked_actions = map (redact_blocked config) c.blocked_actions;
      policy_traces = map (redact_trace config) c.policy_traces;
    }

    same_ids : action_ids redacted.actions ≡ action_ids c.actions
    unfolding redact_action
    same_ids = map-same (λ a. a.action_id) (redact_action config) (λ a. refl) c.actions

    same_action :
        (i : String) (a : ActionProposal)
        → action_issues repr redacted i (redact_action config a) ≡ action_issues repr c i a
    unfolding action_issues redact_action
    same_action i a = refl

    same_trace :
        (i : String) (d : PolicyDecision) (o : Option String) (found : Option PolicyEvaluationTrace)
        → trace_issues repr redacted i
            (redact_decision config d)
            o
            (map_option (redact_trace config) found)
          ≡ trace_issues repr c i d o found
    unfolding trace_issues redact_decision redact_trace
    same_trace i d none found = refl
    same_trace i d (some id) none = refl
    same_trace i d (some id) (some t) = refl

    same_named :
        (o : Option String)
        → named_trace repr redacted o ≡ map_option (redact_trace config) (named_trace repr c o)
    same_named none = refl
    same_named (some id) =
        get-last_of id redacted.policy_traces
        ∙ last_of-redact id c.policy_traces
        ∙ ap (map_option (redact_trace config)) (sym (get-last_of id c.policy_traces))

    same_decision :
        (i : String) (d : PolicyDecision)
        → decision_issues repr redacted i (redact_decision config d) ≡ decision_issues repr c i d
    unfolding decision_issues redact_decision
    same_decision i d =
        rw (
          same_ids,
          same_named d.trace_id,
          same_trace i d d.trace_id (named_trace repr c d.trace_id),
        )

    same_blocked :
        (i : String) (b : BlockedAction)
        → blocked_issues repr redacted i (redact_blocked config b) ≡ blocked_issues repr c i b
    unfolding blocked_issues redact_blocked
    same_blocked i b = rw (
      same_ids,
      any-group_decisions b.action_id redacted.decisions,
      blocks-redact b.action_id c.decisions,
      any-group_decisions b.action_id c.decisions,
    )

    same_reference :
        (o : Option String) → unknown_reference repr redacted o ≡ unknown_reference repr c o
    same_reference none = refl
    same_reference (some id) = rw same_ids

    same_reliance :
        (i : String) (x : RelianceRecord)
        → reliance_issues repr redacted i x ≡ reliance_issues repr c i x
    unfolding reliance_issues
    same_reliance i x = rw (same_reference x.referenced_action_id)

    same_policy_trace :
        (i : String) (t : PolicyEvaluationTrace)
        → policy_trace_issues repr redacted i (redact_trace config t)
          ≡ policy_trace_issues repr c i t
    unfolding policy_trace_issues redact_trace
    same_policy_trace i t = rw same_ids

    same_issues : consistency_issues repr redacted ≡ consistency_issues repr c
    unfolding consistency_issues
    same_issues = rw (
      enumerate-map (action_issues repr c) (action_issues repr redacted) (redact_action config)
          same_action 0 c.actions,
      enumerate-map (decision_issues repr c) (decision_issues repr redacted)
          (redact_decision config) same_decision 0 c.decisions,
      enumerate-map (blocked_issues repr c) (blocked_issues repr redacted) (redact_blocked config)
          same_blocked 0 c.blocked_actions,
      enumerate-same (reliance_issues repr c) (reliance_issues repr redacted) same_reliance 0
          c.reliance_records,
      enumerate-map (policy_trace_issues repr c) (policy_trace_issues repr redacted)
          (redact_trace config) same_policy_trace 0 c.policy_traces,
    )

  -- A redacted record and a redacted bundle get the very report of the original: the same validity
  -- and the same issues; and the bundle of a redacted record is the redacted bundle of the record.
  pub validate_run_record-redact_run_record :
      (r : RunRecord) (b : ReplayBundle) (uuid clock : String)
      → (validate_run_record repr (redact_run_record config r) ≡ validate_run_record repr r)
        × (validate_replay_bundle repr (redact_replay_bundle config b)
            ≡ validate_replay_bundle repr b)
        × (generate_replay_bundle uuid clock (redact_run_record config r)
            ≡ redact_replay_bundle config (generate_replay_bundle uuid clock r))
  unfolding validate_run_record validate_replay_bundle redact_run_record redact_replay_bundle
      generate_replay_bundle
  validate_run_record-redact_run_record r b uuid clock = (
    rw (
      same_issues (content_of_record r),
      is_none-hide_optional config.redact_final_output config.replacement r.final_output,
    ),
    rw (
      same_issues (content_of_bundle b),
      is_none-hide_optional config.redact_final_output config.replacement b.final_output,
    ),
    refl,
  )
