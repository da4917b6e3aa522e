-- ===== src/Records/Validation/Errors.antt =====
-- Which of the collected issues are errors, for each loop of `_validate_run_consistency`.
use cognous_agent_control_pl.Base.{
  ℕ, suc, String, Bool, true, false, Option, none, some, List, [], ◌∷◌, ◌++◌, ◌≡◌, refl, ◌||◌, ◌&&◌,
  not, ◌==◌, eq_iff, any, get_or, if◌then◌else◌, Dict, get, put, get-put, arith, ◌∙◌, decimal,
  Option-cases, inl, inr,
}
use cognous_agent_control_pl.Policy.Models.{
  ActionProposal, PolicyEvaluationTrace, PolicyDecision, AuthorityRecord,
}
use cognous_agent_control_pl.Records.Models.{
  BlockedAction, RelianceRecord, error, warning, ValidationIssue,
}
use cognous_agent_control_pl.Records.Recorder.Evaluate.{is_block}
use cognous_agent_control_pl.Records.Validation.{
  RunContent, collect, is_error, enumerate, group_decision, group_decisions, traces_by_id,
  action_issues, trace_issues, decision_issues, blocked_issues, reliance_issues, authority_issues,
  policy_trace_issues, consistency_issues, differs, unknown_action, named_trace, unknown_reference,
}

pub any-append :
    {A : Type 0} (test : A → Bool) (xs ys : List A)
    → any test (xs ++ ys) ≡ (any test xs || any test ys)
any-append test [] ys = refl
any-append test (x ∷ xs) ys = ground (arith, any-append test xs ys)

pub any_error-collect :
    (b : Bool) (code message path : String) → any is_error (collect error b code message path) ≡ b
unfolding collect is_error
any_error-collect true code message path = refl
any_error-collect false code message path = refl

pub any_error-collect_warning :
    (b : Bool) (code message path : String)
    → any is_error (collect warning b code message path) ≡ false
unfolding collect is_error
any_error-collect_warning true code message path = refl
any_error-collect_warning false code message path = refl

-- A loop has an error exactly if one of its rounds has one.
any_error-enumerate :
    {A : Type 0} (f : String → A → List ValidationIssue) (bad : A → Bool)
    → ((i : String) (x : A) → any is_error (f i x) ≡ bad x)
    → (n : ℕ) (xs : List A) → any is_error (enumerate f n xs) ≡ any bad xs
unfolding enumerate
any_error-enumerate f bad h n [] = refl
any_error-enumerate f bad h n (x ∷ xs) =
    any-append is_error (f (decimal n) x) (enumerate f (suc n) xs)
    ∙ rw (h (decimal n) x, any_error-enumerate f bad h (suc n) xs)

-- The last trace with an identifier.
unfoldable pub last_of : String → List PolicyEvaluationTrace → Option PolicyEvaluationTrace
last_of id [] = none
last_of id (t ∷ ts) = elim (last_of id ts) [
  | some u ↦ some u
  | none ↦ if t.trace_id == id then some t else none
]

abbrev or_else :
    Option PolicyEvaluationTrace → Option PolicyEvaluationTrace → Option PolicyEvaluationTrace
or_else (some u) o = some u
or_else none o = o

get-traces_by_id :
    (id : String) (ts : List PolicyEvaluationTrace) (known : Dict PolicyEvaluationTrace)
    → get id (traces_by_id known ts) ≡ or_else (last_of id ts) (get id known)
unfolding traces_by_id last_of
get-traces_by_id id [] known = refl
get-traces_by_id id (t ∷ ts) known = ground (
  arith,
  get-traces_by_id id ts (put t.trace_id t known),
  get-put t.trace_id id t known,
  eq_iff id t.trace_id,
  eq_iff t.trace_id id,
)

pub get-last_of :
    (id : String) (ts : List PolicyEvaluationTrace) → get id (traces_by_id [] ts) ≡ last_of id ts
unfolding get
get-last_of id ts = get-traces_by_id id ts [] ∙ lemma (last_of id ts)
  where
    lemma : (o : Option PolicyEvaluationTrace) → or_else o none ≡ o
    lemma none = refl
    lemma (some t) = refl

pub or_false : (b : Bool) → (b || false) ≡ b
or_false true = refl
or_false false = refl

abbrev blocks : List PolicyDecision → Bool
blocks = any (λ d. is_block d.result)

-- A block decision for the action.
abbrev pub blocks_action : String → PolicyDecision → Bool
blocks_action id d = d.action_id == id && is_block d.result

blocks-group_decisions :
    (id : String) (ds : List PolicyDecision) (groups : Dict (List PolicyDecision))
    → blocks (get_or [] (get id (group_decisions groups ds)))
      ≡ (blocks (get_or [] (get id groups)) || any (blocks_action id) ds)
unfolding group_decisions group_decision
blocks-group_decisions id [] groups = ground arith
blocks-group_decisions id (d ∷ ds) groups =
    let before = get_or [] (get d.action_id groups) in
    ground (
      arith,
      blocks-group_decisions id ds (group_decision d groups),
      get-put d.action_id id (before ++ d ∷ []) groups,
      eq_iff id d.action_id,
      eq_iff d.action_id id,
      any-append (λ (d : PolicyDecision). is_block d.result) before (d ∷ []),
    )

pub any-group_decisions :
    (id : String) (ds : List PolicyDecision)
    → blocks (get_or [] (get id (group_decisions [] ds))) ≡ any (blocks_action id) ds
unfolding get
any-group_decisions id ds = blocks-group_decisions id ds []

abbrev pub not_matching : String → Option PolicyEvaluationTrace → Bool
not_matching fingerprint none = true
not_matching fingerprint (some t) = not (t.deterministic_fingerprint == fingerprint)

module _ (repr : String → String) (c : RunContent) where
  -- The tests of the loops, with the traces and the decisions looked up directly.
  abbrev pub bad_trace : String → Option String → Bool
  bad_trace fingerprint none = false
  bad_trace fingerprint (some id) = not_matching fingerprint (last_of id c.policy_traces)

  abbrev pub bad_action : ActionProposal → Bool
  bad_action a = differs repr c a.run_id

  abbrev pub bad_decision : PolicyDecision → Bool
  bad_decision d =
      differs repr c d.run_id
      || (unknown_action repr c d.action_id || bad_trace d.deterministic_fingerprint d.trace_id)

  abbrev pub bad_blocked : BlockedAction → Bool
  bad_blocked b =
      differs repr c b.run_id
      || (unknown_action repr c b.action_id || not (any (blocks_action b.action_id) c.decisions))

  abbrev pub bad_reliance : RelianceRecord → Bool
  bad_reliance x = differs repr c x.run_id || unknown_reference repr c x.referenced_action_id

  abbrev pub bad_authority : AuthorityRecord → Bool
  bad_authority x = differs repr c x.run_id

  abbrev pub bad_policy_trace : PolicyEvaluationTrace → Bool
  bad_policy_trace t = differs repr c t.run_id || unknown_action repr c t.action_id

  any_error-action_issues :
      (i : String) (a : ActionProposal) → any is_error (action_issues repr c i a) ≡ bad_action a
  unfolding action_issues
  any_error-action_issues i a = any_error-collect (bad_action a) _ _ _

  any_error-trace_issues :
      (i : String) (d : PolicyDecision) (o : Option String)
      → any is_error (trace_issues repr c i d o (named_trace repr c o))
        ≡ bad_trace d.deterministic_fingerprint o
  unfolding trace_issues
  any_error-trace_issues i d none = refl
  any_error-trace_issues i d (some id) =
      rw (get-last_of id c.policy_traces) (elim (Option-cases (last_of id c.policy_traces)) [
        | inl e ↦ rw e (any_error-collect true _ _ _)
        | inr (t, e) ↦ rw e (any_error-collect _ _ _ _)
      ])

  any_error-decision_issues :
      (i : String) (d : PolicyDecision) → any is_error (decision_issues repr c i d) ≡ bad_decision d
  unfolding decision_issues
  any_error-decision_issues i d =
      simp (any-append, any_error-collect, any_error-trace_issues i d d.trace_id)

  any_error-blocked_issues :
      (i : String) (b : BlockedAction) → any is_error (blocked_issues repr c i b) ≡ bad_blocked b
  unfolding blocked_issues
  any_error-blocked_issues i b =
      simp (any-append, any_error-collect, any-group_decisions b.action_id c.decisions)

  any_error-reliance_issues :
      (i : String) (x : RelianceRecord) → any is_error (reliance_issues repr c i x) ≡ bad_reliance x
  unfolding reliance_issues
  any_error-reliance_issues i x = simp (any-append, any_error-collect)

  any_error-authority_issues :
      (i : String) (x : AuthorityRecord)
      → any is_error (authority_issues repr c i x) ≡ bad_authority x
  unfolding authority_issues
  any_error-authority_issues i x =
      simp (any-append, any_error-collect, any_error-collect_warning, or_false)

  any_error-policy_trace_issues :
      (i : String) (t : PolicyEvaluationTrace)
      → any is_error (policy_trace_issues repr c i t) ≡ bad_policy_trace t
  unfolding policy_trace_issues
  any_error-policy_trace_issues i t = simp (any-append, any_error-collect)

  abbrev pub bad_content : Bool
  bad_content =
      any bad_action c.actions
      || (any bad_decision c.decisions
          || (any bad_blocked c.blocked_actions
              || (any bad_reliance c.reliance_records
                  || (any bad_authority c.authority_records
                      || any bad_policy_trace c.policy_traces))))

  -- The validation finds an error exactly if one of the tests of its loops holds.
  pub any_error-consistency_issues : any is_error (consistency_issues repr c) ≡ bad_content
  unfolding consistency_issues
  any_error-consistency_issues = simp (
    any-append,
    any_error-enumerate (action_issues repr c) bad_action any_error-action_issues 0 c.actions,
    any_error-enumerate (decision_issues repr c) bad_decision any_error-decision_issues 0
        c.decisions,
    any_error-enumerate (blocked_issues repr c) bad_blocked any_error-blocked_issues 0
        c.blocked_actions,
    any_error-enumerate (reliance_issues repr c) bad_reliance any_error-reliance_issues 0
        c.reliance_records,
    any_error-enumerate (authority_issues repr c) bad_authority any_error-authority_issues 0
        c.authority_records,
    any_error-enumerate (policy_trace_issues repr c) bad_policy_trace any_error-policy_trace_issues
        0 c.policy_traces,
  )
