-- ===== src/Bounded/Workflow/Dispatch.antt =====
-- `execute`: what holds when a call changes the destination.
use cognous_agent_control_pl.Base.{
  ◌<◌, String, false, Option, none, List, [], ◌∷◌, ◌≡◌, ◌⊎◌, inl, inr, refl, arith, not, ◌&&◌,
  eq_iff, get, is_empty,
}
use cognous_agent_control_pl.Base.Outcome.{Result, ok, attempting}
use cognous_agent_control_pl.Bounded.Models.{
  AuthorizationBinding, RuntimeDecision, AttemptStatus, EffectAttempt, EffectObservation,
  ReconciliationResult,
}
use cognous_agent_control_pl.Bounded.Documents.{Platform, Resolver}
use cognous_agent_control_pl.Bounded.Destination.{
  ApplyAck, ApplyCall, DestinationState, DestinationFile, readable, unreadable, used, commit, apply,
}
use cognous_agent_control_pl.Bounded.Destination.Laws.{
  cases, seen, full, room, apply_seen, apply_full, apply_room, acknowledge-file,
}
use cognous_agent_control_pl.Bounded.World.{World, Config, on_destination}
use cognous_agent_control_pl.Bounded.World.Untouched.{
  Keeps, keeps_rules, Keeps-entry, Unless, Unless-bind, Unless-change, Unless-Keeps, Unless-if,
}
use cognous_agent_control_pl.Bounded.Observation.{Moment, Clock, observe_and_reconcile}
use cognous_agent_control_pl.Bounded.Observation.Effects.{observe_and_reconcile-destination}
use cognous_agent_control_pl.Bounded.Workflow.{
  match_adapter, reconciled_existing, settle, send, dispatch,
}
use cognous_agent_control_pl.Bounded.Decisions.{
  ExecuteCall, attempt_of, apply_call, is_applied, is_absent, observed_partial,
}

-- An effect that a call has just committed: it was not there, and the grant had room for it.
pub record Committed (a : ApplyCall) (before after : DestinationFile) : Type 0 where
  pub state : DestinationState
  pub was : before ≡ readable state
  pub unseen : get a.effect_id state.effects ≡ none
  pub room : used a.grant_id state < a.max_effects
  pub becomes : after ≡ readable (commit a state)

apply_committed :
    (a : ApplyCall) (f : DestinationFile) → ((apply a f).1 ≡ f) ⊎ Committed a f (apply a f).1
apply_committed a (unreadable e) = inl (unfold apply in refl)
apply_committed a (readable s) = elim (cases a s) [
  | seen e h ↦ inl (rw (apply_seen a s e h))
  | full h q ↦ inl (rw (apply_full a s h q))
  | room h q ↦ inr (record {
    state = s;
    was = refl;
    unseen = h;
    room = q;
    becomes = rw (apply_room a s h q) (acknowledge-file a (readable (commit a s)));
  })
]

module _ (p : Platform) (cfg : Config) (r : Resolver) (c : ExecuteCall) where
  pub observe_and_reconcile-Keeps :
      (k : String) (now : Option Moment) (clock : Clock)
      → Keeps (observe_and_reconcile p cfg k now clock)
  observe_and_reconcile-Keeps k now clock = record {
    at = observe_and_reconcile-destination p cfg k now clock;
  }

  settle-Keeps :
      (d : RuntimeDecision) (started : EffectAttempt) (ack : Result ApplyAck)
      → Keeps (settle p cfg r c d started ack)
  unfolding settle
  settle-Keeps d started ack = search (keeps_rules, observe_and_reconcile-Keeps)

  reconciled_existing-Keeps :
      (d : RuntimeDecision) (s : AttemptStatus) (o : Option EffectObservation)
      → Keeps (reconciled_existing p cfg r c d s o)
  unfolding reconciled_existing
  reconciled_existing-Keeps d s o = search keeps_rules

  send-Unless :
      (d : RuntimeDecision) (b : AuthorizationBinding) (w : World)
      → Unless (Committed (apply_call c d b) w.destination) (send p cfg r c d b) w
  unfolding send
  send-Unless d b w =
      let P = Committed (apply_call c d b) w.destination in
      Unless-bind P _ _ w (Keeps-entry _) (λ _ _ _.
        Unless-change P (attempting (on_destination (apply (apply_call c d b)))) _ _
          (settle-Keeps d (attempt_of p c d AttemptStatus.attempted []))
          (apply_committed (apply_call c d b) w.destination))

  with_prior :
      {X : Type 0} {Y : Type 0} (prior : List EffectAttempt)
      → not (is_empty prior) ≡ false
      → X ⊎ Y
      → X ⊎ ((prior ≡ []) × Y)
  with_prior [] h (inl x) = inl x
  with_prior [] h (inr y) = inr (refl, y)
  with_prior (a ∷ prior) h o = absurd (ground arith)

  -- Only the last branch of the dispatch reaches the destination, with no attempt before.
  pub dispatch-Unless :
      (d : RuntimeDecision) (b : AuthorizationBinding) (prior : List EffectAttempt)
      (v : ReconciliationResult) (w : World)
      → Unless
          (λ f. (prior ≡ []) × Committed (apply_call c d b) w.destination f)
          (dispatch p cfg r c d b prior v)
          w
  unfolding dispatch
  dispatch-Unless d b prior v w =
      let P =
        λ (f : DestinationFile). (prior ≡ []) × Committed (apply_call c d b) w.destination f in
      Unless-if P (is_applied v.result) _ _ w
        (λ _. Unless-Keeps P _ w (reconciled_existing-Keeps d _ _))
        (λ _.
          Unless-if P (observed_partial v.observation && v.observation_accepted) _ _ w
            (λ _. Unless-Keeps P _ w (reconciled_existing-Keeps d _ _))
            (λ _.
              Unless-if P (not (is_absent v.result)) _ _ w (λ _. inl refl)
                (λ _.
                  Unless-if P (not (is_empty prior)) _ _ w (λ _. inl refl)
                    (λ h. with_prior prior h (send-Unless d b w)))))

  pub match_adapter-ok :
      (b : AuthorizationBinding) (w : World) (u : Unit)
      → (match_adapter p cfg r c b w).0 ≡ ok u
      → c.adapter_id ≡ b.adapter_id
  unfolding match_adapter
  match_adapter-ok b w u h = ground (arith, eq_iff c.adapter_id b.adapter_id)

  pub match_adapter-world :
      (b : AuthorizationBinding) (w : World) → (match_adapter p cfg r c b w).1 ≡ w
  unfolding match_adapter
  match_adapter-world b w = ground arith
