-- ===== src/Bounded/Workflow/Commit.antt =====
-- `execute`: where nothing stands in the way, the effect is committed.
use cognous_agent_control_pl.Base.{
  ℕ, ◌+◌, ◌*◌, ◌≤◌, ◌<◌, String, Option, none, some, [], ◌≡◌, refl, sym, ap, ◌∙◌, get, eq_iff,
  if◌then◌else◌, Bool-cases, inl, inr,
}
use cognous_agent_control_pl.Base.Outcome.{Result, ok}
use cognous_agent_control_pl.Bounded.Models.{
  AuthorizationBinding, AuthorizationBinding-discrete, RuntimeDecision, AttemptStatus,
  EffectAttempt, EffectObservation, ObservationPolicy, ReconciliationOutcome, ReconciliationResult,
}
use cognous_agent_control_pl.Bounded.Documents.{Platform, PrintsTime, Resolver, second}
use cognous_agent_control_pl.Bounded.Destination.{
  ApplyAck, DestinationState, DestinationFile, readable, unreadable, used, commit, apply,
  acknowledge, observation_of, observe,
}
use cognous_agent_control_pl.Bounded.Destination.Laws.{IsConsistent, apply_room, acknowledge-file}
use cognous_agent_control_pl.Bounded.Store.{Document, Entry, append}
use cognous_agent_control_pl.Bounded.World.{World, Config, world_of}
use cognous_agent_control_pl.Bounded.Observation.{Moment, Clock, observe_and_reconcile}
use cognous_agent_control_pl.Bounded.Observation.Reconcile.{
  verdict, after_verdict, reconcile_observation_lem,
}
use cognous_agent_control_pl.Bounded.Observation.Effects.{truth, reconcile-truth}
use cognous_agent_control_pl.Bounded.Workflow.{revalidate, match_adapter, settle, send, dispatch}
use cognous_agent_control_pl.Bounded.Decisions.{
  ExecuteCall, attempt_of, apply_call, finished, is_applied, is_absent, observed_partial,
}
use cognous_agent_control_pl.Bounded.Workflow.Decide.{and_entry}
use cognous_agent_control_pl.Bounded.Workflow.Refuse.{holds_refl}

-- What a call returns as the status of its attempt.
abbrev pub status_after : ExecuteCall → AttemptStatus
status_after c =
    if c.lose_ack
    then AttemptStatus.unknown
    else (if c.partial then AttemptStatus.partial else AttemptStatus.acknowledged)

same_value : {v w : ReconciliationResult} → ok v ≡ ok w → v ≡ w
same_value h = cc

module _ (p : Platform) (cfg : Config) (k : String) (now : Option Moment) where
  -- An observation always ends with a result in the record.
  observe_any :
      (clock : Clock) (d : Document) (f : DestinationFile)
      → (v : ReconciliationResult) × (d' : Document) × (observe_and_reconcile p cfg k now clock
            (world_of d f)
          ≡ (ok v, world_of d' f))
  unfolding observe_and_reconcile observe append
  observe_any clock d (readable s) =
      let o = observation_of p k clock.observed (get k s.effects) in
      (
        verdict p cfg k now o clock.reconciled,
        record {
          run = after_verdict p cfg k now o clock.reconciled d.run;
          extensions = d.extensions;
        },
        reconcile_observation_lem p cfg k now o clock.reconciled d (readable s),
      )
  observe_any clock d (unreadable e) = (_, _, refl)

module _ (p : Platform) (cfg : Config) (r : Resolver) (c : ExecuteCall) where
  settle_any :
      (d : RuntimeDecision) (a : EffectAttempt) (ack : Result ApplyAck) (doc : Document)
      (f : DestinationFile)
      → (o : Option EffectObservation) × (doc' : Document) × (settle p cfg r c d a ack
            (world_of doc f)
          ≡ (ok (finished a c.partial ack, o), world_of doc' f))
  unfolding settle append
  settle_any d a ack doc f =
      let after = and_entry (Entry.attempt (finished a c.partial ack)) doc in
      let (v, doc', h) =
        observe_any p cfg d.effect_id (some (Moment.aware c.now)) c.after after f in
      (if v.observation_accepted then v.observation else none, doc', rw h)

  status_lem :
      (d : RuntimeDecision) (b : AuthorizationBinding) (f : DestinationFile)
      → (finished
          (attempt_of p c d AttemptStatus.attempted [])
          c.partial
          (acknowledge (apply_call c d b) f).0).status
        ≡ status_after c
  unfolding acknowledge apply_call finished
  status_lem d b f = elim (Bool-cases c.lose_ack) [ inl h ↦ rw h | inr h ↦ rw h ]

  -- The sending returns an attempt with the status of the call, and has committed the effect.
  abbrev pub Commits :
      RuntimeDecision
      → AuthorizationBinding
      → DestinationState
      → Result (EffectAttempt × Option EffectObservation) × World
      → Type 0
  Commits d b s after =
      (a : EffectAttempt) × (o : Option EffectObservation) × (doc : Document) × (after
        ≡ (ok (a, o), world_of doc (readable (commit (apply_call c d b) s))))
      × (a.status ≡ status_after c)

  send_lem :
      (d : RuntimeDecision) (b : AuthorizationBinding) (doc : Document) (f : DestinationFile)
      → let started = attempt_of p c d AttemptStatus.attempted [] in
        let after = apply (apply_call c d b) f in
        send p cfg r c d b (world_of doc f)
        ≡ settle p cfg r c d started after.0
            (world_of (and_entry (Entry.attempt started) doc) after.1)
  unfolding send append
  send_lem d b doc f = refl

  pub send-Commits :
      (d : RuntimeDecision) (b : AuthorizationBinding) (doc : Document) (s : DestinationState)
      → get (apply_call c d b).effect_id s.effects ≡ none
      → used (apply_call c d b).grant_id s < (apply_call c d b).max_effects
      → Commits d b s (send p cfg r c d b (world_of doc (readable s)))
  send-Commits d b doc s absent has_room =
      let call = apply_call c d b in
      let f = readable (commit call s) in
      let started = attempt_of p c d AttemptStatus.attempted [] in
      let first = and_entry (Entry.attempt started) doc in
      let (o, doc', h) = settle_any d started (acknowledge call f).0 first (acknowledge call f).1 in
      (
        finished started c.partial (acknowledge call f).0,
        o,
        doc',
        send_lem d b doc (readable s)
            ∙ (ap
                  (λ (x : Result ApplyAck × DestinationFile).
                    settle p cfg r c d started x.0 (world_of first x.1))
                  (apply_room call s absent has_room)
                ∙ (h
                    ∙ ap
                        (λ g. (
                          ok (finished started c.partial (acknowledge call f).0, o),
                          world_of doc' g,
                        ))
                        (acknowledge-file call f))),
        status_lem d b f,
      )

  -- An accepted absence, and no attempt before, lead to the sending.
  pub dispatch_sends :
      (d : RuntimeDecision) (b : AuthorizationBinding) (v : ReconciliationResult) (k : String)
      (clock : ℕ)
      → v.result ≡ ReconciliationOutcome.observed_absent
      → v.observation ≡ some (observation_of p k clock none)
      → dispatch p cfg r c d b [] v ≡ send p cfg r c d b
  unfolding dispatch is_applied is_absent observed_partial observation_of
  dispatch_sends d b v k clock result seen = rw (result, seen)

  pub same_revalidates :
      (d : RuntimeDecision) (b : AuthorizationBinding) (w : World)
      → revalidate p cfg r c d b ([], some b) w ≡ (ok b, w)
  unfolding revalidate
  same_revalidates d b w = rw (holds_refl AuthorizationBinding-discrete b)

  pub same_adapter :
      (b : AuthorizationBinding) (w : World)
      → c.adapter_id ≡ b.adapter_id
      → match_adapter p cfg r c b w ≡ (ok tt, w)
  unfolding match_adapter
  same_adapter b w h = rw ((eq_iff c.adapter_id b.adapter_id).1 h)

  -- The observation before the effect, of a destination without it.
  pub observes_absent :
      (k : String) (t : ℕ) (times : PrintsTime p) (policy : ObservationPolicy) (clock : Clock)
      (doc : Document) (s : DestinationState)
      → cfg.observation_policy ≡ some policy
      → clock.observed ≤ t + policy.clock_tolerance_seconds * second
      → t ≤ clock.observed + policy.max_age_seconds * second
      → IsConsistent s
      → get k s.effects ≡ none
      → (v : ReconciliationResult) × (doc' : Document) × (observe_and_reconcile p cfg k
            (some (Moment.aware t))
            clock
            (world_of doc (readable s))
          ≡ (ok v, world_of doc' (readable s)))
        × (v.result ≡ ReconciliationOutcome.observed_absent)
        × (v.observation ≡ some (observation_of p k clock.observed none))
  observes_absent k t times policy clock doc s there early recent ok_state absent =
      let now = some (Moment.aware t) in
      let (w, h, result, _, seen) =
        reconcile-truth p times cfg k t policy clock doc s there early recent ok_state in
      let (v, doc', e) = observe_any p cfg k now clock doc (readable s) in
      let same : v ≡ w = same_value (sym (ap (λ x. x.0) e) ∙ h) in
      (
        v,
        doc',
        e,
        ap (λ x. x.result) same ∙ (result ∙ ap truth absent),
        ap (λ x. x.observation) same
            ∙ (seen ∙ ap (λ x. some (observation_of p k clock.observed x)) absent),
      )
