-- ===== src/Records/Recorder/Valid.antt =====
-- The record of one run is valid, whatever is called; a second run in the same recorder is not.
use cognous_agent_control_pl.Base.{
  String, true, false, Option, none, some, List, [], ◌∷◌, ◌≡◌, ◌≢◌, refl, sym, ◌∙◌, inl, inr, All,
  map-All, ◌==◌, eq_iff, Bool-cases,
}
use cognous_agent_control_pl.Base.Outcome.{ok}
use cognous_agent_control_pl.Bounded.Documents.{Platform}
use cognous_agent_control_pl.Policy.Models.{ActionProposal, PolicyEvaluationTrace}
use cognous_agent_control_pl.Policy.Gate.{Canonical}
use cognous_agent_control_pl.Records.Models.{RunRecord, RelianceRecord}
use cognous_agent_control_pl.Records.Recorder.{
  Started, RunRecorder, new_recorder, StartCall, start_run, create_frame, record_of, to_run_record,
  to_run_record_lem,
}
use cognous_agent_control_pl.Records.Recorder.Evaluate.{RecorderCall, after_calls}
use cognous_agent_control_pl.Records.Recorder.Invariant.{HasTrace, Traced, IsRun}
use cognous_agent_control_pl.Records.Recorder.Calls.{IsRun-after_calls}
use cognous_agent_control_pl.Records.Replay.{generate_replay_bundle}
use cognous_agent_control_pl.Records.Validation.{
  content_of_record, RunContent, validate_run_record, validate_replay_bundle,
}
use cognous_agent_control_pl.Records.Validation.Errors.{last_of}
use cognous_agent_control_pl.Records.Validation.Consistent.{
  IsExplained, IsReferenced, IsConsistent, validate_run_record-IsConsistent, record_valid,
  bundle_valid,
}

-- No two traces have one identifier, as `uuid4` gives them.
abbrev pub IsDistinct : List PolicyEvaluationTrace → Type 0
IsDistinct [] = Unit
IsDistinct (t ∷ ts) =
    All (λ (u : PolicyEvaluationTrace). u.trace_id ≢ t.trace_id) ts × IsDistinct ts

last_of-none :
    (id : String) (ts : List PolicyEvaluationTrace)
    → All (λ (u : PolicyEvaluationTrace). u.trace_id ≢ id) ts
    → last_of id ts ≡ none
unfolding last_of
last_of-none id [] h = refl
last_of-none id (t ∷ ts) h = rw (last_of-none id ts h.1) (elim (Bool-cases (t.trace_id == id)) [
  | inl e ↦ absurd (h.0 ((eq_iff _ _).0 e))
  | inr e ↦ rw e
])

-- With distinct identifiers, the trace that is there is the one found.
last_of-HasTrace :
    (id fingerprint : String) (ts : List PolicyEvaluationTrace)
    → IsDistinct ts
    → HasTrace id fingerprint ts
    → (t : PolicyEvaluationTrace) × (last_of id ts ≡ some t)
      × (t.deterministic_fingerprint ≡ fingerprint)
unfolding last_of
last_of-HasTrace id fingerprint [] d h = absurd h
last_of-HasTrace id fingerprint (t ∷ ts) d (inr h) =
    let (u, e, f) = last_of-HasTrace id fingerprint ts d.1 h in (u, rw e, f)
last_of-HasTrace id fingerprint (t ∷ ts) d (inl (same, f)) =
    let nothing : last_of id ts ≡ none = last_of-none id ts (rw same at d.0) in
    (t, rw (nothing, (eq_iff t.trace_id id).1 same), f)

Traced-IsExplained :
    (c : RunContent) (fingerprint : String) (o : Option String)
    → IsDistinct c.policy_traces
    → Traced o fingerprint c.policy_traces
    → IsExplained c fingerprint o
Traced-IsExplained c fingerprint none d h = tt
Traced-IsExplained c fingerprint (some id) d h = last_of-HasTrace id fingerprint c.policy_traces d h

join_reliance :
    (P Q : RelianceRecord → Type 0) (xs : List RelianceRecord)
    → All P xs
    → All Q xs
    → All (λ x. P x × Q x) xs
join_reliance P Q [] h k = tt
join_reliance P Q (x ∷ xs) h k = ((h.0, k.0), join_reliance P Q xs h.1 k.1)

IsRun-IsConsistent :
    (s : Started) (r : RunRecorder)
    → IsRun s r
    → IsDistinct r.policy_traces
    → All
        (λ (x : RelianceRecord).
          IsReferenced (content_of_record (record_of s r)) x.referenced_action_id)
        r.reliance_records
    → IsConsistent (content_of_record (record_of s r))
unfolding record_of
IsRun-IsConsistent s r v d refs = record {
  actions = v.actions;
  decisions =
      map-All _ _
        (λ x h. (
          h.0.0,
          h.0.1,
          Traced-IsExplained (content_of_record (record_of s r)) x.deterministic_fingerprint
              x.trace_id d h.1,
        ))
        r.decisions v.decisions;
  blocked = map-All _ _ (λ x h. (h.0.0, h.0.1, h.1)) r.blocked_actions v.blocked;
  reliance = join_reliance _ _ r.reliance_records v.reliance refs;
  authority = v.authority;
  traces = v.traces;
}

abbrev started_by : StartCall → Started
started_by c = record {
  run_id = c.run_uuid;
  task = c.task;
  created_at = c.clock;
  frame = create_frame c;
}

start_run-IsRun : (c : StartCall) → IsRun (started_by c) (start_run c new_recorder).1
unfolding start_run
start_run-IsRun c = record {
  started = refl;
  actions = tt;
  decisions = tt;
  blocked = tt;
  reliance = tt;
  authority = tt;
  traces = tt;
}

module _ (p : Platform) (sha256 : Canonical → String) where
  -- A new recorder after `start_run` and any further calls of its other methods, of which some may raise.
  abbrev pub recorder_after : StartCall → List RecorderCall → RunRecorder
  recorder_after c cs = after_calls p sha256 cs (start_run c new_recorder).1

  abbrev pub recorded : StartCall → List RecorderCall → RunRecord
  recorded c cs = record_of (started_by c) (recorder_after c cs)

  recorder_after-IsRun :
      (c : StartCall) (cs : List RecorderCall) → IsRun (started_by c) (recorder_after c cs)
  recorder_after-IsRun c cs = IsRun-after_calls p sha256 (started_by c) cs _ (start_run-IsRun c)

  -- After `start_run` on a new recorder and any further calls of its other methods, of which some may
  -- raise, the recorder gives a record, which is valid if its traces have distinct identifiers and its
  -- reliance records refer to proposed actions.
  pub recorder-IsValid :
      (repr : String → String) (c : StartCall) (cs : List RecorderCall)
      → IsDistinct (recorded c cs).policy_traces
      → All
          (λ (x : RelianceRecord).
            IsReferenced (content_of_record (recorded c cs)) x.referenced_action_id)
          (recorded c cs).reliance_records
      → (to_run_record (recorder_after c cs) ≡ (ok (recorded c cs), recorder_after c cs))
        × ((validate_run_record repr (recorded c cs)).valid ≡ true)
  recorder-IsValid repr c cs d refs =
      let v = recorder_after-IsRun c cs in
      (
        to_run_record_lem (recorder_after c cs) (started_by c) v.started,
        (validate_run_record-IsConsistent repr (recorded c cs)).1
            (unfold record_of in IsRun-IsConsistent (started_by c) (recorder_after c cs) v d refs),
      )

first_of :
    (P : ActionProposal → Type 0) (xs : List ActionProposal) (a : ActionProposal)
    (more : List ActionProposal)
    → xs ≡ a ∷ more
    → All P xs
    → P a
first_of P [] a more e h = cc
first_of P (x ∷ xs) a more e h = let same : x ≡ a = cc in rw (← same) h.0

-- A recorder that holds an action of another run gives, after `start_run`, a record of the new run
-- that still holds the action, and is not valid.
pub start_run-keeps_old :
    (repr : String → String) (c : StartCall) (r : RunRecorder) (a : ActionProposal)
    (more : List ActionProposal)
    → r.actions ≡ a ∷ more
    → a.run_id ≢ c.run_uuid
    → (x : RunRecord) × (to_run_record (start_run c r).1 ≡ (ok x, (start_run c r).1))
      × (x.run_id ≡ c.run_uuid)
      × (x.actions ≡ a ∷ more)
      × ((validate_run_record repr x).valid ≡ false)
unfolding start_run record_of
start_run-keeps_old repr c r a more held other =
    let x = record_of (started_by c) (start_run c r).1 in
    (
      x,
      to_run_record_lem (start_run c r).1 (started_by c) refl,
      refl,
      held,
      elim (Bool-cases (validate_run_record repr x).valid) [
        | inr e ↦ e
        | inl e ↦
            let kept = ((validate_run_record-IsConsistent repr x).0 e).actions in
            absurd (other (first_of _ r.actions a more held kept))
      ],
    )

-- The replay bundle of a record is valid exactly if the record is.
pub generate_replay_bundle-valid :
    (repr : String → String) (uuid clock : String) (r : RunRecord)
    → (validate_replay_bundle repr (generate_replay_bundle uuid clock r)).valid
      ≡ (validate_run_record repr r).valid
unfolding generate_replay_bundle
generate_replay_bundle-valid repr uuid clock r =
    bundle_valid repr (generate_replay_bundle uuid clock r) ∙ sym (record_valid repr r)
