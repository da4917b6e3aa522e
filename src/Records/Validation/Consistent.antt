-- ===== src/Records/Validation/Consistent.antt =====
-- What a consistent run is, and that the validation finds exactly the consistent ones valid.
use cognous_agent_control_pl.Base.{
  String, Bool, true, false, Option, none, some, List, [], ◌∷◌, ◌++◌, ◌≡◌, ◌↔◌, refl, ◌||◌, not,
  ◌==◌, eq_iff, any, mem, All, arith, ap, ◌∙◌, sym,
}
use cognous_agent_control_pl.Policy.Models.{
  ActionProposal, PolicyEvaluationTrace, PolicyDecision, AuthorityRecord,
}
use cognous_agent_control_pl.Records.Models.{
  BlockedAction, RelianceRecord, RunRecord, ReplayBundle, warning,
}
use cognous_agent_control_pl.Records.Validation.{
  RunContent, collect, is_error, action_ids, consistency_issues, report, content_of_record,
  content_of_bundle, validate_run_record, validate_replay_bundle, unknown_reference,
}
use cognous_agent_control_pl.Records.Validation.Errors.{
  any-append, any_error-collect_warning, or_false, last_of, blocks_action, not_matching, bad_trace,
  bad_action, bad_decision, bad_blocked, bad_reliance, bad_authority, bad_policy_trace, bad_content,
  any_error-consistency_issues,
}

-- A test that fails of each item exactly as the property holds.
any-All :
    {A : Type 0} (bad : A → Bool) (P : A → Type 0)
    → ((x : A) → (bad x ≡ false) ↔ P x)
    → (xs : List A) → (any bad xs ≡ false) ↔ All P xs
any-All bad P h [] = (λ _. tt, λ _. refl)
any-All bad P h (x ∷ xs) = (
  λ e. ((h x).0 (ground arith), (any-All bad P h xs).0 (ground arith)),
  λ a. ground (arith, (h x).1 a.0, (any-All bad P h xs).1 a.1),
)

or_iff :
    {P Q : Type 0} (a b : Bool) → (a ≡ false) ↔ P → (b ≡ false) ↔ Q → ((a || b) ≡ false) ↔ (P × Q)
or_iff a b h k =
    (λ e. (h.0 (ground arith), k.0 (ground arith)), λ e. ground (arith, h.1 e.0, k.1 e.1))

or3_iff :
    {P Q R : Type 0} (a b c : Bool)
    → (a ≡ false) ↔ P
    → (b ≡ false) ↔ Q
    → (c ≡ false) ↔ R
    → ((a || (b || c)) ≡ false) ↔ (P × Q × R)
or3_iff a b c h k l = (
  λ e. (h.0 (ground arith), k.0 (ground arith), l.0 (ground arith)),
  λ e. ground (arith, h.1 e.0, k.1 e.1, l.1 e.2),
)

same_run : (s t : String) → (not (s == t) ≡ false) ↔ (s ≡ t)
same_run s t = (λ h. ground (arith, eq_iff s t), λ h. ground (arith, eq_iff s t))

false_of_not : (b : Bool) → not b ≡ true → b ≡ false
false_of_not true h = cc
false_of_not false h = refl

passed : (b : Bool) → (not b ≡ false) ↔ (b ≡ true)
passed true = (λ h. refl, λ h. refl)
passed false = (λ h. absurd (ground arith), λ h. absurd (ground arith))

module _ (c : RunContent) where
  abbrev pub IsProposed : String → Type 0
  IsProposed id = mem id (action_ids c.actions) ≡ true

  -- The last trace with the identifier has the fingerprint.
  abbrev pub IsExplained : String → Option String → Type 0
  IsExplained fingerprint none = Unit
  IsExplained fingerprint (some id) =
      (t : PolicyEvaluationTrace) × (last_of id c.policy_traces ≡ some t)
      × (t.deterministic_fingerprint ≡ fingerprint)

  abbrev pub IsReferenced : Option String → Type 0
  IsReferenced none = Unit
  IsReferenced (some id) = IsProposed id

  -- Everything is of this run; decisions, traces, blocked actions and references are of its actions;
  -- a decision agrees with the trace that it names; a blocked action has a decision that blocks it.
  pub record IsConsistent : Type 0 where
    pub actions : All (λ (a : ActionProposal). a.run_id ≡ c.run_id) c.actions
    pub decisions :
        All
          (λ (d : PolicyDecision).
            (d.run_id ≡ c.run_id)
            × IsProposed d.action_id
            × IsExplained d.deterministic_fingerprint d.trace_id)
          c.decisions
    pub blocked :
        All
          (λ (b : BlockedAction).
            (b.run_id ≡ c.run_id)
            × IsProposed b.action_id
            × (any (blocks_action b.action_id) c.decisions ≡ true))
          c.blocked_actions
    pub reliance :
        All
          (λ (x : RelianceRecord). (x.run_id ≡ c.run_id) × IsReferenced x.referenced_action_id)
          c.reliance_records
    pub authority : All (λ (x : AuthorityRecord). x.run_id ≡ c.run_id) c.authority_records
    pub traces :
        All
          (λ (t : PolicyEvaluationTrace). (t.run_id ≡ c.run_id) × IsProposed t.action_id)
          c.policy_traces

module _ (repr : String → String) (c : RunContent) where
  IsExplained-iff :
      (fingerprint : String) (o : Option String)
      → (bad_trace repr c fingerprint o ≡ false) ↔ IsExplained c fingerprint o
  IsExplained-iff fingerprint none = (λ _. tt, λ _. refl)
  IsExplained-iff fingerprint (some id) = found (last_of id c.policy_traces)
    where
      found :
          (o : Option PolicyEvaluationTrace)
          → (not_matching fingerprint o ≡ false) ↔ (
              (t : PolicyEvaluationTrace) × (o ≡ some t)
              × (t.deterministic_fingerprint ≡ fingerprint))
      found none = (λ h. absurd (ground arith), λ h. absurd (ground arith))
      found (some t) =
          let same = same_run t.deterministic_fingerprint fingerprint in
          (λ h. (t, refl, same.0 h), λ (u, e, g). same.1 (cc))

  IsReferenced-iff : (o : Option String) → (unknown_reference repr c o ≡ false) ↔ IsReferenced c o
  IsReferenced-iff none = (λ _. tt, λ _. refl)
  IsReferenced-iff (some id) = passed (mem id (action_ids c.actions))

  decision_iff :
      (d : PolicyDecision)
      → (bad_decision repr c d ≡ false) ↔ (
          (d.run_id ≡ c.run_id)
          × IsProposed c d.action_id
          × IsExplained c d.deterministic_fingerprint d.trace_id)
  decision_iff d =
      or3_iff _ _ _ (same_run d.run_id c.run_id) (passed _)
        (IsExplained-iff d.deterministic_fingerprint d.trace_id)

  blocked_iff :
      (b : BlockedAction)
      → (bad_blocked repr c b ≡ false) ↔ (
          (b.run_id ≡ c.run_id)
          × IsProposed c b.action_id
          × (any (blocks_action b.action_id) c.decisions ≡ true))
  blocked_iff b = or3_iff _ _ _ (same_run b.run_id c.run_id) (passed _) (passed _)

  -- No test of the loops holds exactly if the run is consistent.
  pub bad_content_iff : (bad_content repr c ≡ false) ↔ IsConsistent c
  bad_content_iff =
      let actions = any-All (bad_action repr c) _ (λ a. same_run a.run_id c.run_id) c.actions in
      let decisions = any-All (bad_decision repr c) _ decision_iff c.decisions in
      let blocked = any-All (bad_blocked repr c) _ blocked_iff c.blocked_actions in
      let reliance =
        any-All (bad_reliance repr c) _
          (λ x. or_iff _ _ (same_run x.run_id c.run_id) (IsReferenced-iff x.referenced_action_id))
          c.reliance_records in
      let authority =
        any-All (bad_authority repr c) _ (λ x. same_run x.run_id c.run_id) c.authority_records in
      let traces =
        any-All (bad_policy_trace repr c) _
          (λ t. or_iff _ _ (same_run t.run_id c.run_id) (passed _)) c.policy_traces in
      let parts = or_iff _ _ actions (
        or_iff _ _ decisions
          (or_iff _ _ blocked (or_iff _ _ reliance (or_iff _ _ authority traces)))) in
      (
        λ h.
            let (a, (d, (b, (r, (u, t))))) = parts.0 h in
            record {
              actions = a;
              decisions = d;
              blocked = b;
              reliance = r;
              authority = u;
              traces = t;
            },
        λ v. parts.1 (v.actions, (v.decisions, (v.blocked, (v.reliance, (v.authority, v.traces))))),
      )

module _ (repr : String → String) where
  any_error-content :
      (c : RunContent) (b : Bool) (code message path : String)
      → any is_error (consistency_issues repr c ++ collect warning b code message path)
        ≡ bad_content repr c
  any_error-content c b code message path =
      any-append is_error (consistency_issues repr c) (collect warning b code message path)
      ∙ rw (any_error-collect_warning, any_error-consistency_issues repr c) (or_false _)

  pub record_valid :
      (r : RunRecord)
      → (validate_run_record repr r).valid ≡ not (bad_content repr (content_of_record r))
  unfolding validate_run_record report
  record_valid r = ap not (any_error-content (content_of_record r) _ _ _ _)

  pub bundle_valid :
      (b : ReplayBundle)
      → (validate_replay_bundle repr b).valid ≡ not (bad_content repr (content_of_bundle b))
  unfolding validate_replay_bundle report
  bundle_valid b = ap not (any_error-content (content_of_bundle b) _ _ _ _)

  -- A run record is valid exactly if it is consistent.
  pub validate_run_record-IsConsistent :
      (r : RunRecord)
      → ((validate_run_record repr r).valid ≡ true) ↔ IsConsistent (content_of_record r)
  validate_run_record-IsConsistent r =
      let c = content_of_record r in
      (
        λ h.
            (bad_content_iff repr c).0
              (false_of_not (bad_content repr c) (sym (record_valid r) ∙ h)),
        λ v. record_valid r ∙ ap not ((bad_content_iff repr c).1 v),
      )

  pub validate_replay_bundle-IsConsistent :
      (b : ReplayBundle)
      → ((validate_replay_bundle repr b).valid ≡ true) ↔ IsConsistent (content_of_bundle b)
  validate_replay_bundle-IsConsistent b =
      let c = content_of_bundle b in
      (
        λ h.
            (bad_content_iff repr c).0
              (false_of_not (bad_content repr c) (sym (bundle_valid b) ∙ h)),
        λ v. bundle_valid b ∙ ap not ((bad_content_iff repr c).1 v),
      )
