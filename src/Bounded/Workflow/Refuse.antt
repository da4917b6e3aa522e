-- ===== src/Bounded/Workflow/Refuse.antt =====
-- `execute`: an authorized decision whose inputs have changed is refused.
use cognous_agent_control_pl.Base.{
  String, true, Option, none, some, List, [], ◌∷◌, ◌≡◌, ◌≢◌, refl, ap, arith, eq_iff, holds, holds→,
  Bool-cases, sorted_set-nil, inl, inr,
}
use cognous_agent_control_pl.Base.Outcome.{Exn, permission_error, ok, raise}
use cognous_agent_control_pl.Bounded.Models.{
  AuthorizationBinding, AuthorizationBinding-discrete, DecisionResult, RuntimeDecision-discrete,
  EffectTimeRefusal,
}
use cognous_agent_control_pl.Bounded.Documents.{Platform, Resolver}
use cognous_agent_control_pl.Bounded.Destination.{DestinationFile}
use cognous_agent_control_pl.Bounded.Store.{Document, Entry, append, find_decision, lookup_decision}
use cognous_agent_control_pl.Bounded.World.{Config, world_of}
use cognous_agent_control_pl.Bounded.Resolve.{resolve}
use cognous_agent_control_pl.Bounded.Context.{effect_id_of}
use cognous_agent_control_pl.Bounded.Changed.{changed_inputs}
use cognous_agent_control_pl.Bounded.Workflow.{
  refusal_of, refuse, revalidate, resolve_again, execute,
}
use cognous_agent_control_pl.Bounded.Decisions.{ExecuteCall, admit, authorize, refusal_reasons}
use cognous_agent_control_pl.Bounded.Workflow.Decide.{and_entry}

holds_of : {X : Type 0} (d : Dec X) → X → holds d ≡ true
holds_of (yes e) x = refl
holds_of (no n) x = absurd (n x)

pub holds_refl : {A : Type 0} (d : (x y : A) → Dec (x ≡ y)) (x : A) → holds (d x x) ≡ true
holds_refl d x = holds_of (d x x) refl

never_nil : (reasons : List String) → refusal_reasons reasons ≢ []
unfolding refusal_reasons
never_nil [] h = cc
never_nil (x ∷ reasons) h = absurd (ground (arith, sorted_set-nil (x ∷ reasons) h))

abbrev inputs_changed : Exn
inputs_changed = record {
  kind = permission_error;
  message = "authorization-critical inputs changed before effect";
}

module _ (p : Platform) (cfg : Config) (r : Resolver) (c : ExecuteCall) where
  pub admits :
      (b : AuthorizationBinding)
      → c.decision.result ≡ DecisionResult.authorized
      → c.decision.binding ≡ some b
      → c.decision.effect_id ≡ effect_id_of p b
      → admit p c.decision (some c.decision) ≡ ok (c.decision, b)
  unfolding admit authorize
  admits b result bound effect =
      let same = (eq_iff c.decision.effect_id (effect_id_of p b)).1 effect in
      rw (holds_refl RuntimeDecision-discrete c.decision, result, bound) (rw same)

  changed_refuses :
      (b : AuthorizationBinding) (found : List String × Option AuthorizationBinding)
      → found ≢ ([], some b)
      → revalidate p cfg r c c.decision b found ≡ refuse p cfg r c c.decision b found.0
  unfolding revalidate
  changed_refuses b ([], none) h = refl
  changed_refuses b ([], some e) h = elim (Bool-cases (holds (AuthorizationBinding-discrete e b))) [
    | inl t ↦ absurd (h (ap (λ x. ([], some x)) (holds→ (AuthorizationBinding-discrete e b) t)))
    | inr t ↦ rw t
  ]
  changed_refuses b (x ∷ rs, o) h = refl

  -- A persisted, authorized decision whose proposal now resolves to a reason or to another binding
  -- is refused with a PermissionError: the record gains one refusal, with a reason and the inputs
  -- that changed, and the destination is not touched.
  pub execute-refuses :
      (doc : Document) (f : DestinationFile) (b : AuthorizationBinding)
      (found : List String × Option AuthorizationBinding)
      → find_decision c.decision.decision_id doc.run.decisions ≡ some c.decision
      → c.decision.result ≡ DecisionResult.authorized
      → c.decision.binding ≡ some b
      → c.decision.effect_id ≡ effect_id_of p b
      → resolve p cfg r c.now c.proposal ≡ ok found
      → found ≢ ([], some b)
      → (e : Exn) × (x : EffectTimeRefusal) × (execute p cfg r c (world_of doc f)
          ≡ (raise e, world_of (and_entry (Entry.refusal x) doc) f))
        × (e.kind ≡ permission_error)
        × (x.decision_id ≡ c.decision.decision_id)
        × (x.effect_id ≡ c.decision.effect_id)
        × (x.reasons ≢ [])
        × (x.changed_inputs ≡ changed_inputs p r c.proposal b)
  unfolding execute resolve_again lookup_decision refuse append
  execute-refuses doc f b found persisted result bound effect now_resolves changed = (
    inputs_changed,
    refusal_of p cfg r c c.decision b found.0,
    rw (persisted, admits b result bound effect, now_resolves, changed_refuses b found changed),
    refl,
    unfold refusal_of in refl,
    unfold refusal_of in refl,
    unfold refusal_of in never_nil found.0,
    unfold refusal_of in refl,
  )
