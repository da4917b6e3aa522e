-- ===== src/Records/Redaction/Hides.antt =====
-- What a redacted record no longer shows, and that redacting again changes nothing.
use cognous_agent_control_pl.Base.{
  String, Bool, true, false, Option, none, some, List, [], ◌∷◌, ◌≡◌, refl, if◌then◌else◌, map, All,
  arith,
}
use cognous_agent_control_pl.Policy.Models.{
  ActionProposal, PolicyRuleEvaluation, PolicyEvaluationTrace, PolicyDecision, PolicyResult,
}
use cognous_agent_control_pl.Records.Models.{BlockedAction, RunRecord, RedactionConfig}
use cognous_agent_control_pl.Records.Redaction.{
  marker, hide, hide_optional, redact_action, redact_decision, redact_blocked, redact_rule,
  redact_trace, redact_run_record,
}

map-twice :
    {A : Type 0} (f : A → A)
    → ((x : A) → f (f x) ≡ f x)
    → (xs : List A) → map f (map f xs) ≡ map f xs
map-twice f h [] = refl
map-twice f h (x ∷ xs) = rw (h x, map-twice f h xs)

hide-twice : (b : Bool) (s t : String) → hide b s (hide b s t) ≡ hide b s t
hide-twice true s t = refl
hide-twice false s t = refl

hide_optional-twice :
    (b : Bool) (s : String) (o : Option String)
    → hide_optional b s (hide_optional b s o) ≡ hide_optional b s o
hide_optional-twice true s none = refl
hide_optional-twice true s (some t) = refl
hide_optional-twice false s o = refl

All-map :
    {A : Type 0} (P : A → Type 0) (f : A → A)
    → ((x : A) → P (f x))
    → (xs : List A) → All P (map f xs)
All-map P f h [] = tt
All-map P f h (x ∷ xs) = (h x, All-map P f h xs)

pub map-same :
    {A B : Type 0} (g : A → B) (f : A → A)
    → ((x : A) → g (f x) ≡ g x)
    → (xs : List A) → map g (map f xs) ≡ map g xs
map-same g f h [] = refl
map-same g f h (x ∷ xs) = rw (h x, map-same g f h xs)

if-twice :
    {A : Type 0} (b : Bool) (x y : A)
    → (if b then x else (if b then x else y)) ≡ (if b then x else y)
if-twice true x y = refl
if-twice false x y = refl

only_replacement :
    (b : Bool) (s t : String) (o : Option String) → b ≡ true → hide_optional b s o ≡ some t → t ≡ s
only_replacement true s t none h e = cc
only_replacement true s t (some u) h e = ground arith
only_replacement false s t o h e = cc

hidden : (b : Bool) (s t : String) → b ≡ true → hide b s t ≡ s
hidden b s t h = rw h

-- What a redaction keeps of a decision and of an action.
abbrev pub outcome : PolicyDecision → String × PolicyResult
outcome d = (d.deterministic_fingerprint, d.result)

abbrev pub action_name : ActionProposal → String
action_name a = a.action_id

module _ (config : RedactionConfig) where
  action-twice :
      (a : ActionProposal) → redact_action config (redact_action config a) ≡ redact_action config a
  unfolding redact_action
  action-twice a = rw (
    if-twice config.redact_payloads marker a.payload,
    hide-twice config.redact_targets config.replacement a.target,
    hide_optional-twice config.redact_reasons config.replacement a.reason,
  )

  decision-twice :
      (d : PolicyDecision)
      → redact_decision config (redact_decision config d) ≡ redact_decision config d
  unfolding redact_decision
  decision-twice d = rw (hide-twice config.redact_reasons config.replacement d.reason)

  blocked-twice :
      (b : BlockedAction)
      → redact_blocked config (redact_blocked config b) ≡ redact_blocked config b
  unfolding redact_blocked
  blocked-twice b = rw (hide-twice config.redact_reasons config.replacement b.reason)

  rule-twice :
      (r : PolicyRuleEvaluation) → redact_rule config (redact_rule config r) ≡ redact_rule config r
  unfolding redact_rule
  rule-twice r = rw (hide-twice config.redact_reasons config.replacement r.reason)

  trace-twice :
      (t : PolicyEvaluationTrace)
      → redact_trace config (redact_trace config t) ≡ redact_trace config t
  unfolding redact_trace
  trace-twice t = rw (map-twice (redact_rule config) rule-twice t.rules_evaluated)

  -- Redacting a redacted record again changes nothing.
  redact_run_record-twice :
      (r : RunRecord)
      → redact_run_record config (redact_run_record config r) ≡ redact_run_record config r
  unfolding redact_run_record
  redact_run_record-twice r = rw (
    map-twice (redact_action config) action-twice r.actions,
    map-twice (redact_decision config) decision-twice r.decisions,
    map-twice (redact_blocked config) blocked-twice r.blocked_actions,
    map-twice (redact_trace config) trace-twice r.policy_traces,
    hide_optional-twice config.redact_final_output config.replacement r.final_output,
  )

  -- What the configuration asks to hide of an action is hidden.
  pub record IsHidden (a : ActionProposal) : Type 0 where
    pub payload : config.redact_payloads ≡ true → a.payload ≡ marker
    pub target : config.redact_targets ≡ true → a.target ≡ config.replacement
    pub reason :
        config.redact_reasons ≡ true → (t : String) → a.reason ≡ some t → t ≡ config.replacement

  action-IsHidden : (a : ActionProposal) → IsHidden (redact_action config a)
  unfolding redact_action
  action-IsHidden a = record {
    payload = λ h. rw h;
    target = hidden config.redact_targets config.replacement a.target;
    reason = λ h t e. only_replacement config.redact_reasons config.replacement t a.reason h e;
  }

  blocked_hidden :
      (b : BlockedAction)
      → config.redact_reasons ≡ true
      → (redact_blocked config b).reason ≡ config.replacement
  unfolding redact_blocked
  blocked_hidden b = hidden config.redact_reasons config.replacement b.reason

  rule_hidden :
      (x : PolicyRuleEvaluation)
      → config.redact_reasons ≡ true
      → (redact_rule config x).reason ≡ config.replacement
  unfolding redact_rule
  rule_hidden x = hidden config.redact_reasons config.replacement x.reason

  trace_hidden :
      (t : PolicyEvaluationTrace)
      → All
          (λ (x : PolicyRuleEvaluation).
            config.redact_reasons ≡ true → x.reason ≡ config.replacement)
          (redact_trace config t).rules_evaluated
  unfolding redact_trace
  trace_hidden t = All-map _ (redact_rule config) rule_hidden t.rules_evaluated

  -- A redacted record shows no payload, target or reason of an action, no reason of a decision, of a
  -- blocked action or of a rule of a trace, and no final output that the configuration hides, and
  -- keeps the fingerprints and the results of its decisions and the identifiers of its actions.
  pub redact_run_record-IsHidden :
      (r : RunRecord)
      → let after = redact_run_record config r in
        All IsHidden after.actions
        × All
            (λ (d : PolicyDecision). config.redact_reasons ≡ true → d.reason ≡ config.replacement)
            after.decisions
        × All
            (λ (b : BlockedAction). config.redact_reasons ≡ true → b.reason ≡ config.replacement)
            after.blocked_actions
        × All
            (λ (t : PolicyEvaluationTrace).
              All
                (λ (x : PolicyRuleEvaluation).
                  config.redact_reasons ≡ true → x.reason ≡ config.replacement)
                t.rules_evaluated)
            after.policy_traces
        × (config.redact_final_output ≡ true
            → (t : String) → after.final_output ≡ some t
            → t ≡ config.replacement)
        × (map outcome after.decisions ≡ map outcome r.decisions)
        × (map action_name after.actions ≡ map action_name r.actions)
  unfolding redact_run_record
  redact_run_record-IsHidden r = (
    All-map IsHidden (redact_action config) action-IsHidden r.actions,
    All-map _ (redact_decision config)
        (λ d h.
          unfold redact_decision in hidden config.redact_reasons config.replacement d.reason h)
        r.decisions,
    All-map _ (redact_blocked config) blocked_hidden r.blocked_actions,
    All-map _ (redact_trace config) trace_hidden r.policy_traces,
    λ h t e. only_replacement config.redact_final_output config.replacement t r.final_output h e,
    map-same outcome (redact_decision config) (λ d. unfold redact_decision in refl) r.decisions,
    map-same action_name (redact_action config) (λ a. unfold redact_action in refl) r.actions,
  )
