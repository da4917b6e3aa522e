-- ===== src/Policy/Rules.antt =====
-- `_apply_rules` as a decision table, and what an allowed action and a trace establish.
use cognous_agent_control_pl.Base.{
  if_true, if_false, String, Bool, true, false, List, [], ◌∷◌, ◌++◌, ◌≡◌, inl, inr, refl, sym, ap,
  ◌∙◌, not, ◌==◌, mem, if◌then◌else◌, Bool-cases, All, append-All,
}
use cognous_agent_control_pl.Base.Outcome.{ok}
use cognous_agent_control_pl.Policy.Models.{
  Frame, ActionProposal, PolicyResult, reached, not_reached, PolicyRuleEvaluation,
}
use cognous_agent_control_pl.Policy.Gate.{Rule, rules, Verdict, evaluated, first_match, apply_rules}

-- The table: the result and the name of the rule, by what the rules test.
abbrev pub table : Bool → Bool → String → List String → PolicyResult × String
table blocked allowed action_type scopes =
    if blocked
    then (PolicyResult.block, "blocked_tool_policy")
    else (if not allowed
        then (PolicyResult.escalate, "unknown_tool_policy")
        else (if action_type == "external_send"
            then (
              if mem "external_send" scopes then PolicyResult.allow else PolicyResult.block,
              "external_send_authority_policy",
            )
            else (if action_type == "read"
                then (PolicyResult.allow, "read_allowed_tool_policy")
                else (if action_type == "write"
                    then (
                      if mem "write" scopes then PolicyResult.allow else PolicyResult.escalate,
                      "write_authority_policy",
                    )
                    else (PolicyResult.escalate, "default_escalation_policy")))))

-- A rule that did not match, in a trace.
pub record IsUnmatched (e : PolicyRuleEvaluation) : Type 0 where
  pub unmatched : e.matched ≡ false
  pub no_result : e.result ≡ not_reached

-- Every rule of the trace but the last did not match, and the last one gave the verdict.
pub record IsTrace (trace : List PolicyRuleEvaluation) (result : PolicyResult)
    (policy_name : String) : Type 0 where
  pub earlier : List PolicyRuleEvaluation
  pub last : PolicyRuleEvaluation
  pub split : trace ≡ earlier ++ last ∷ []
  pub skipped : All IsUnmatched earlier
  pub matched : last.matched ≡ true
  pub decided : last.result ≡ reached result
  pub named : last.rule_name ≡ policy_name

evaluated-IsUnmatched : (r : Rule) → r.matched ≡ false → IsUnmatched (evaluated r)
unfolding evaluated
evaluated-IsUnmatched r h = record { unmatched = rw h; no_result = rw h }

evaluated-matched :
    (r : Rule)
    → r.matched ≡ true
    → ((evaluated r).matched ≡ true)
      × ((evaluated r).result ≡ reached r.result)
      × ((evaluated r).rule_name ≡ r.rule_name)
unfolding evaluated
evaluated-matched r h = (rw h, rw h, rw h)

here :
    (trace : List PolicyRuleEvaluation) (r : Rule) (v : Verdict)
    → All IsUnmatched trace
    → r.matched ≡ true
    → ok (record {
      result = r.result;
      policy_name = r.rule_name;
      reason = r.reason;
      trace_rules = trace ++ evaluated r ∷ [];
    })
      ≡ ok v
    → IsTrace v.trace_rules v.result v.policy_name
here trace r v skipped t h =
    let (matched, decided, named) = evaluated-matched r t in
    record {
      earlier = trace;
      last = evaluated r;
      split = cc;
      skipped = skipped;
      matched = matched;
      decided = decided ∙ ap reached cc;
      named = named ∙ cc;
    }

first_match-IsTrace :
    (trace : List PolicyRuleEvaluation) (rs : List Rule) (v : Verdict)
    → All IsUnmatched trace
    → first_match trace rs ≡ ok v
    → IsTrace v.trace_rules v.result v.policy_name
unfolding first_match
first_match-IsTrace trace [] v skipped h = cc
first_match-IsTrace trace (r ∷ rs) v skipped h = elim (Bool-cases r.matched) [
  | inl t ↦ here trace r v skipped t (sym (if_true r.matched _ _ t) ∙ h)
  | inr t ↦
      first_match-IsTrace (trace ++ evaluated r ∷ []) rs v
        (append-All IsUnmatched trace (evaluated r ∷ []) skipped (evaluated-IsUnmatched r t, tt))
        (sym (if_false r.matched _ _ t) ∙ h)
]

decides :
    (a : ActionProposal) (f : Frame) (scopes : List String)
    → (v : Verdict) × (apply_rules a f scopes ≡ ok v)
      × ((v.result, v.policy_name)
          ≡ table
              (mem a.tool_name f.blocked_tools)
              (mem a.tool_name f.allowed_tools)
              a.action_type
              scopes)
unfolding apply_rules
decides a f scopes = elim (Bool-cases (mem a.tool_name f.blocked_tools)) [
  | inl t ↦ rw t (_, refl, refl)
  | inr t ↦ elim (Bool-cases (mem a.tool_name f.allowed_tools)) [
    | inr u ↦ rw (t, u) (_, refl, refl)
    | inl u ↦ elim (Bool-cases (a.action_type == "external_send")) [
      | inl v ↦ rw (t, u, v) (_, refl, refl)
      | inr v ↦ elim (Bool-cases (a.action_type == "read")) [
        | inl w ↦ rw (t, u, v, w) (_, refl, refl)
        | inr w ↦ elim (Bool-cases (a.action_type == "write")) [
          | inl x ↦ rw (t, u, v, w, x) (_, refl, refl)
          | inr x ↦ rw (t, u, v, w, x) (_, refl, refl)
        ]
      ]
    ]
  ]
]

-- The rules always decide, and as the table says; the trace shows the rules in order up to the one
-- that decided, and no other of them matched.
pub apply_rules-table :
    (a : ActionProposal) (f : Frame) (scopes : List String)
    → (v : Verdict) × (apply_rules a f scopes ≡ ok v)
      × ((v.result, v.policy_name)
          ≡ table
              (mem a.tool_name f.blocked_tools)
              (mem a.tool_name f.allowed_tools)
              a.action_type
              scopes)
      × IsTrace v.trace_rules v.result v.policy_name
apply_rules-table a f scopes =
    let (v, h, same) = decides a f scopes in
    (v, h, same, first_match-IsTrace [] (rules a f scopes) v tt (unfold apply_rules in h))
