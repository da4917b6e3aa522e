-- ===== src/Bounded/Workflow/Admission.antt =====
-- `execute`: what the tests of the persisted decision and of its binding have established when they
-- let the call go on.
use cognous_agent_control_pl.Base.{
  String, Option, none, some, List, [], ◌∷◌, ◌≡◌, inl, inr, refl, sym, ap, ◌∙◌, arith, ◌==◌, eq_iff,
  holds, holds→, Bool-cases,
}
use cognous_agent_control_pl.Base.Outcome.{ok}
use cognous_agent_control_pl.Bounded.Models.{
  AuthorizationBinding, AuthorizationBinding-discrete, DecisionResult, RuntimeDecision,
  RuntimeDecision-discrete, BoundedRunRecord,
}
use cognous_agent_control_pl.Bounded.Documents.{Platform, Resolver}
use cognous_agent_control_pl.Bounded.Store.{
  Document, RecordFile, missing, corrupt, stored, load, lookup_decision, find_decision,
}
use cognous_agent_control_pl.Bounded.World.{World, Config}
use cognous_agent_control_pl.Bounded.Context.{effect_id_of}
use cognous_agent_control_pl.Bounded.Workflow.{refuse, revalidate}
use cognous_agent_control_pl.Bounded.Decisions.{ExecuteCall, admit, authorize}

pub load-ok :
    (f : RecordFile) (run : BoundedRunRecord)
    → (load f).0 ≡ ok run
    → (d : Document) × (f ≡ stored d) × (run ≡ d.run)
unfolding load
load-ok missing run h = cc
load-ok (corrupt e) run h = cc
load-ok (stored d) run h = (d, refl, cc)

pub lookup-ok :
    (k : String) (f : RecordFile) (o : Option RuntimeDecision)
    → (lookup_decision k f).0 ≡ ok o
    → (d : Document) × (f ≡ stored d) × (o ≡ find_decision k d.run.decisions)
unfolding lookup_decision
lookup-ok k missing o h = cc
lookup-ok k (corrupt e) o h = cc
lookup-ok k (stored d) o h = (d, refl, cc)

module _ (p : Platform) (cfg : Config) (r : Resolver) (c : ExecuteCall) where
  authorize-ok :
      (d d' : RuntimeDecision) (s : DecisionResult) (o : Option AuthorizationBinding)
      (b : AuthorizationBinding)
      → authorize p d s o ≡ ok (d', b)
      → (d' ≡ d) × (s ≡ DecisionResult.authorized) × (o ≡ some b) × (d.effect_id ≡ effect_id_of p b)
  unfolding authorize
  authorize-ok d d' DecisionResult.authorized (some b') b h =
      elim (Bool-cases (d.effect_id == effect_id_of p b')) [
        | inl e ↦
            let same : b' ≡ b = ground arith in
            (ground arith, refl, ap some same, (eq_iff _ _).0 e ∙ ap (effect_id_of p) same)
        | inr e ↦ absurd (ground arith)
      ]
  authorize-ok d d' DecisionResult.authorized none b h = cc
  authorize-ok d d' DecisionResult.hold o b h = cc
  authorize-ok d d' DecisionResult.deny o b h = cc

  pub admit-ok :
      (d d' : RuntimeDecision) (o : Option RuntimeDecision) (b : AuthorizationBinding)
      → admit p d o ≡ ok (d', b)
      → (d' ≡ d)
        × (o ≡ some d)
        × (d.result ≡ DecisionResult.authorized)
        × (d.binding ≡ some b)
        × (d.effect_id ≡ effect_id_of p b)
  unfolding admit
  admit-ok d d' none b h = cc
  admit-ok d d' (some e) b h = elim (Bool-cases (holds (RuntimeDecision-discrete e d))) [
    | inl t ↦
        let same : e ≡ d = holds→ (RuntimeDecision-discrete e d) t in
        let (first, result, binding, effect) = authorize-ok e d' e.result e.binding b (rw t at h) in
        (
          first ∙ same,
          ap some same,
          rw (sym same) result,
          rw (sym same) binding,
          rw (sym same) effect,
        )
    | inr t ↦ absurd (ground arith)
  ]

  refuse-raises :
      (d : RuntimeDecision) (b current : AuthorizationBinding) (reasons : List String) (w : World)
      → (refuse p cfg r c d b reasons w).0 ≡ ok current
      → ⊥
  unfolding refuse
  refuse-raises d b current reasons w h = ground arith

  pub revalidate-ok :
      (d : RuntimeDecision) (b current : AuthorizationBinding)
      (found : List String × Option AuthorizationBinding) (w : World)
      → (revalidate p cfg r c d b found w).0 ≡ ok current
      → (current ≡ b) × (found ≡ ([], some b)) × ((revalidate p cfg r c d b found w).1 ≡ w)
  unfolding revalidate
  revalidate-ok d b current ([], some e) w h =
      elim (Bool-cases (holds (AuthorizationBinding-discrete e b))) [
        | inl t ↦
            let same : e ≡ b = holds→ (AuthorizationBinding-discrete e b) t in
            let h' : ok e ≡ ok current = rw t at h in
            rw t (ground arith ∙ same, ap (λ x. ([], some x)) same, refl)
        | inr t ↦ absurd (refuse-raises d b current [] w (rw t at h))
      ]
  revalidate-ok d b current ([], none) w h = absurd (refuse-raises d b current [] w h)
  revalidate-ok d b current (x ∷ reasons, o) w h =
      absurd (refuse-raises d b current (x ∷ reasons) w h)
