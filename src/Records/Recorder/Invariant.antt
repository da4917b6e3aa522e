-- ===== src/Records/Recorder/Invariant.antt =====
-- What holds of a recorder within a run, whatever is called: everything in it is of the run, and
-- decisions, blocked actions and traces are of proposed actions.
use cognous_agent_control_pl.Base.{
  String, Bool, true, Option, none, some, List, [], ◌∷◌, ◌++◌, ◌≡◌, refl, ◌⊎◌, inl, inr, any, mem,
  All, map-All, append-All, arith, eq_iff,
}
use cognous_agent_control_pl.Policy.Models.{
  ActionProposal, PolicyEvaluationTrace, PolicyDecision, AuthorityRecord,
}
use cognous_agent_control_pl.Records.Models.{BlockedAction, RelianceRecord}
use cognous_agent_control_pl.Records.Recorder.{Started, RunRecorder}
use cognous_agent_control_pl.Records.Recorder.Evaluate.{is_proposed}
use cognous_agent_control_pl.Records.Validation.{action_ids}
use cognous_agent_control_pl.Records.Validation.Errors.{blocks_action, any-append}

-- Some trace of the list has the identifier and the fingerprint.
abbrev pub HasTrace : String → String → List PolicyEvaluationTrace → Type 0
HasTrace id fingerprint [] = ⊥
HasTrace id fingerprint (t ∷ ts) =
    ((t.trace_id ≡ id) × (t.deterministic_fingerprint ≡ fingerprint)) ⊎ HasTrace id fingerprint ts

abbrev pub Traced : Option String → String → List PolicyEvaluationTrace → Type 0
Traced none fingerprint ts = Unit
Traced (some id) fingerprint ts = HasTrace id fingerprint ts

abbrev pub OfRun : String → List ActionProposal → String → String → Type 0
OfRun run actions run_id action_id = (run_id ≡ run) × (mem action_id (action_ids actions) ≡ true)

pub record IsRun (s : Started) (r : RunRecorder) : Type 0 where
  pub started : r.started ≡ some s
  pub actions : All (λ (a : ActionProposal). a.run_id ≡ s.run_id) r.actions
  pub decisions :
      All
        (λ (d : PolicyDecision).
          OfRun s.run_id r.actions d.run_id d.action_id
          × Traced d.trace_id d.deterministic_fingerprint r.policy_traces)
        r.decisions
  pub blocked :
      All
        (λ (b : BlockedAction).
          OfRun s.run_id r.actions b.run_id b.action_id
          × (any (blocks_action b.action_id) r.decisions ≡ true))
        r.blocked_actions
  pub reliance : All (λ (x : RelianceRecord). x.run_id ≡ s.run_id) r.reliance_records
  pub authority : All (λ (x : AuthorityRecord). x.run_id ≡ s.run_id) r.authority_records
  pub traces :
      All
        (λ (t : PolicyEvaluationTrace). OfRun s.run_id r.actions t.run_id t.action_id)
        r.policy_traces

any_grows :
    {A : Type 0} (test : A → Bool) (xs ys : List A)
    → any test xs ≡ true
    → any test (xs ++ ys) ≡ true
any_grows test xs ys h = ground (arith, any-append test xs ys)

proposed_grows :
    (id : String) (xs ys : List ActionProposal)
    → mem id (action_ids xs) ≡ true
    → mem id (action_ids (xs ++ ys)) ≡ true
proposed_grows id [] ys h = absurd (ground arith)
proposed_grows id (x ∷ xs) ys h = ground (arith, proposed_grows id xs ys)

HasTrace-append :
    (id fingerprint : String) (xs ys : List PolicyEvaluationTrace)
    → HasTrace id fingerprint xs
    → HasTrace id fingerprint (xs ++ ys)
HasTrace-append id fingerprint [] ys h = absurd h
HasTrace-append id fingerprint (x ∷ xs) ys (inl h) = inl h
HasTrace-append id fingerprint (x ∷ xs) ys (inr h) = inr (HasTrace-append id fingerprint xs ys h)

pub append-HasTrace :
    (t : PolicyEvaluationTrace) (xs : List PolicyEvaluationTrace)
    → HasTrace t.trace_id t.deterministic_fingerprint (xs ++ t ∷ [])
append-HasTrace t [] = inl (refl, refl)
append-HasTrace t (x ∷ xs) = inr (append-HasTrace t xs)

Traced-append :
    (o : Option String) (fingerprint : String) (xs ys : List PolicyEvaluationTrace)
    → Traced o fingerprint xs
    → Traced o fingerprint (xs ++ ys)
Traced-append none fingerprint xs ys h = tt
Traced-append (some id) fingerprint xs ys h = HasTrace-append id fingerprint xs ys h

pub mem-is_proposed :
    (id : String) (xs : List ActionProposal)
    → is_proposed id xs ≡ true
    → mem id (action_ids xs) ≡ true
unfolding is_proposed
mem-is_proposed id [] h = absurd (ground arith)
mem-is_proposed id (x ∷ xs) h =
    ground (arith, mem-is_proposed id xs, eq_iff id x.action_id, eq_iff x.action_id id)

module _ (s : Started) (r : RunRecorder) (v : IsRun s r) where
  pub IsRun-propose :
      (a : ActionProposal)
      → a.run_id ≡ s.run_id
      → IsRun s (record r { actions = r.actions ++ a ∷ [] })
  IsRun-propose a h = record {
    started = v.started;
    actions = append-All _ r.actions (a ∷ []) v.actions (h, tt);
    decisions =
        map-All _ _ (λ d x. ((x.0.0, proposed_grows d.action_id r.actions (a ∷ []) x.0.1), x.1))
          r.decisions v.decisions;
    blocked =
        map-All _ _ (λ b x. ((x.0.0, proposed_grows b.action_id r.actions (a ∷ []) x.0.1), x.1))
          r.blocked_actions v.blocked;
    reliance = v.reliance;
    authority = v.authority;
    traces =
        map-All _ _ (λ t x. (x.0, proposed_grows t.action_id r.actions (a ∷ []) x.1))
          r.policy_traces v.traces;
  }

  pub IsRun-note_trace :
      (t : PolicyEvaluationTrace)
      → OfRun s.run_id r.actions t.run_id t.action_id
      → IsRun s (record r { policy_traces = r.policy_traces ++ t ∷ [] })
  IsRun-note_trace t h = record {
    started = v.started;
    actions = v.actions;
    decisions =
        map-All _ _
          (λ d x. (
            x.0,
            Traced-append d.trace_id d.deterministic_fingerprint r.policy_traces (t ∷ []) x.1,
          ))
          r.decisions v.decisions;
    blocked = v.blocked;
    reliance = v.reliance;
    authority = v.authority;
    traces = append-All _ r.policy_traces (t ∷ []) v.traces (h, tt);
  }

  -- A decision of a proposed action that agrees with its trace.
  pub IsRun-decision :
      (d : PolicyDecision)
      → OfRun s.run_id r.actions d.run_id d.action_id
      → Traced d.trace_id d.deterministic_fingerprint r.policy_traces
      → IsRun s (record r { decisions = r.decisions ++ d ∷ [] })
  IsRun-decision d h t = record {
    started = v.started;
    actions = v.actions;
    decisions = append-All _ r.decisions (d ∷ []) v.decisions ((h, t), tt);
    blocked =
        map-All _ _ (λ b x. (x.0, any_grows (blocks_action b.action_id) r.decisions (d ∷ []) x.1))
          r.blocked_actions v.blocked;
    reliance = v.reliance;
    authority = v.authority;
    traces = v.traces;
  }

  pub IsRun-block :
      (b : BlockedAction)
      → OfRun s.run_id r.actions b.run_id b.action_id
      → any (blocks_action b.action_id) r.decisions ≡ true
      → IsRun s (record r { blocked_actions = r.blocked_actions ++ b ∷ [] })
  IsRun-block b h k = record {
    started = v.started;
    actions = v.actions;
    decisions = v.decisions;
    blocked = append-All _ r.blocked_actions (b ∷ []) v.blocked ((h, k), tt);
    reliance = v.reliance;
    authority = v.authority;
    traces = v.traces;
  }

  pub IsRun-authority :
      (x : AuthorityRecord)
      → x.run_id ≡ s.run_id
      → IsRun s (record r { authority_records = r.authority_records ++ x ∷ [] })
  IsRun-authority x h = record {
    started = v.started;
    actions = v.actions;
    decisions = v.decisions;
    blocked = v.blocked;
    reliance = v.reliance;
    authority = append-All _ r.authority_records (x ∷ []) v.authority (h, tt);
    traces = v.traces;
  }

  pub IsRun-reliance :
      (x : RelianceRecord)
      → x.run_id ≡ s.run_id
      → IsRun s (record r { reliance_records = r.reliance_records ++ x ∷ [] })
  IsRun-reliance x h = record {
    started = v.started;
    actions = v.actions;
    decisions = v.decisions;
    blocked = v.blocked;
    reliance = append-All _ r.reliance_records (x ∷ []) v.reliance (h, tt);
    authority = v.authority;
    traces = v.traces;
  }

  pub IsRun-complete :
      (final_output : Option String)
      → IsRun s (record r { completed = true; final_output = final_output })
  IsRun-complete final_output = record {
    started = v.started;
    actions = v.actions;
    decisions = v.decisions;
    blocked = v.blocked;
    reliance = v.reliance;
    authority = v.authority;
    traces = v.traces;
  }

  pub IsRun-bundle : (id : Option String) → IsRun s (record r { replay_bundle_id = id })
  IsRun-bundle id = record {
    started = v.started;
    actions = v.actions;
    decisions = v.decisions;
    blocked = v.blocked;
    reliance = v.reliance;
    authority = v.authority;
    traces = v.traces;
  }
