-- ===== src/Bounded/Observation/Laws.antt =====
-- When `_reconcile_observation` accepts an observation: exactly the conditions of the contract.
use cognous_agent_control_pl.Base.{
  ℕ, ◌+◌, ◌*◌, ◌≤◌, String, Bool, true, false, Option, none, some, List, [], ◌∷◌, ◌++◌, ◌≡◌, ◌↔◌,
  refl, ap, sym, ◌∙◌, is_none, not, get, eq_iff, is_blank, note, note-nil, append-eq-nil, arith,
  Dict,
}
use cognous_agent_control_pl.Bounded.Models.{
  Value, text, ObservedState, EffectObservation, ObservationPolicy,
}
use cognous_agent_control_pl.Bounded.Documents.{Platform, Timestamp, second}
use cognous_agent_control_pl.Bounded.World.{Config}
use cognous_agent_control_pl.Bounded.Observation.{
  Moment, evaluation_time, observation_time, age_reasons, is_text, observed_text, state_reasons,
  observation_reasons,
}

-- What the destination reports agrees with the identity and with itself.
abbrev pub IsCoherent : String → ObservedState → Dict Value → Type 0
IsCoherent k ObservedState.applied d =
    (get "effect_id" d ≡ some (text k)) × (get "state" d ≡ some (text "applied"))
IsCoherent k ObservedState.partial d =
    (get "effect_id" d ≡ some (text k)) × (get "state" d ≡ some (text "partial"))
IsCoherent k ObservedState.absent d = d ≡ []
IsCoherent k ObservedState.unknown d = ⊥

-- The observation is about the identity, is dated with a timezone, was made no later than the
-- evaluation time plus the tolerance and no longer ago than the policy allows, and is coherent.
abbrev pub IsAcceptable : Platform → Config → String → EffectObservation → Option Moment → Type 0
IsAcceptable p cfg effect_id o now =
    (t : ℕ) × (u : ℕ) × (policy : ObservationPolicy) × (raw : String) × (now
      ≡ some (Moment.aware t))
    × (cfg.observation_policy ≡ some policy)
    × (o.effect_id ≡ effect_id)
    × (o.observed_at ≡ some raw)
    × (is_blank raw ≡ false)
    × (p.fromisoformat raw ≡ Timestamp.aware u)
    × (u ≤ t + policy.clock_tolerance_seconds * second)
    × (t ≤ u + policy.max_age_seconds * second)
    × IsCoherent effect_id o.state o.destination_state

evaluation_time-nil :
    (now : Option Moment) → (evaluation_time now).1 ≡ [] → (t : ℕ) × (now ≡ some (Moment.aware t))
unfolding evaluation_time
evaluation_time-nil none h = cc
evaluation_time-nil (some (Moment.naive t)) h = cc
evaluation_time-nil (some (Moment.aware t)) h = (t, refl)

timestamp_cases :
    (p : Platform) (raw : String) (ts : Timestamp)
    → p.fromisoformat raw ≡ ts
    → is_blank raw ≡ false
    → (observation_time p (some raw)).1 ≡ []
    → (u : ℕ) × (p.fromisoformat raw ≡ Timestamp.aware u)
unfolding observation_time
timestamp_cases p raw Timestamp.malformed e b h = absurd (ground arith)
timestamp_cases p raw (Timestamp.naive t) e b h = absurd (ground arith)
timestamp_cases p raw (Timestamp.aware t) e b h = (t, e)

not_blank :
    (p : Platform) (raw : String) → (observation_time p (some raw)).1 ≡ [] → is_blank raw ≡ false
unfolding observation_time
not_blank p raw h = ground arith

observation_time-nil :
    (p : Platform) (o : Option String)
    → (observation_time p o).1 ≡ []
    → (raw : String) × (u : ℕ) × (o ≡ some raw)
      × (is_blank raw ≡ false)
      × (p.fromisoformat raw ≡ Timestamp.aware u)
observation_time-nil p none h = absurd (unfold observation_time in cc)
observation_time-nil p (some raw) h =
    let b : is_blank raw ≡ false = not_blank p raw h in
    let (u, e) = timestamp_cases p raw (p.fromisoformat raw) refl b h in (raw, u, refl, b, e)

observation_time-aware :
    (p : Platform) (raw : String) (u : ℕ)
    → is_blank raw ≡ false
    → p.fromisoformat raw ≡ Timestamp.aware u
    → observation_time p (some raw) ≡ (some u, [])
unfolding observation_time
observation_time-aware p raw u b e = rw (b, e)

is_text-some : (k : String) (v : Option Value) → is_text k v ≡ true → v ≡ some (text k)
unfolding is_text
is_text-some k (some (text t)) h = ap (λ x. some (text x)) ((eq_iff t k).0 h)
is_text-some k _ h = cc

some-is_text : (k : String) (v : Option Value) → v ≡ some (text k) → is_text k v ≡ true
unfolding is_text
some-is_text k v h = rw h ((eq_iff k k).1 refl)

not-false : (b : Bool) → not b ≡ false → b ≡ true
not-false true h = refl
not-false false h = cc

-- The two reasons against a destination that reports an effect.
landed_nil :
    (k name : String) (d : Dict Value)
    → note (not (is_text k (get "effect_id" d))) "destination_effect_id_mismatch"
        ++ note (not (is_text name (get "state" d))) "destination_state_contradiction"
      ≡ []
    → (get "effect_id" d ≡ some (text k)) × (get "state" d ≡ some (text name))
landed_nil k name d h =
    let (a, b) = append-eq-nil _ _ h in
    (
      is_text-some k _ (not-false _ (note-nil _ _ a)),
      is_text-some name _ (not-false _ (note-nil _ _ b)),
    )

nil_landed :
    (k name : String) (d : Dict Value)
    → get "effect_id" d ≡ some (text k)
    → get "state" d ≡ some (text name)
    → note (not (is_text k (get "effect_id" d))) "destination_effect_id_mismatch"
        ++ note (not (is_text name (get "state" d))) "destination_state_contradiction"
      ≡ []
nil_landed k name d e f = rw (some-is_text k _ e, some-is_text name _ f)

state_reasons-nil :
    (k : String) (s : ObservedState) (d : Dict Value) → state_reasons k s d ≡ [] → IsCoherent k s d
unfolding state_reasons observed_text
state_reasons-nil k ObservedState.applied d h = landed_nil k "applied" d h
state_reasons-nil k ObservedState.partial d h = landed_nil k "partial" d h
state_reasons-nil k ObservedState.absent [] h = refl
state_reasons-nil k ObservedState.absent (x ∷ d) h = cc
state_reasons-nil k ObservedState.unknown d h = cc

coherent_nil :
    (k : String) (s : ObservedState) (d : Dict Value) → IsCoherent k s d → state_reasons k s d ≡ []
unfolding state_reasons observed_text
coherent_nil k ObservedState.applied d h = nil_landed k "applied" d h.0 h.1
coherent_nil k ObservedState.partial d h = nil_landed k "partial" d h.0 h.1
coherent_nil k ObservedState.absent d h = rw h
coherent_nil k ObservedState.unknown d h = absurd h

age_reasons-nil :
    (u t : ℕ) (policy : ObservationPolicy)
    → (age_reasons (some u) (some t) (some policy) ≡ []) ↔ (
        (u ≤ t + policy.clock_tolerance_seconds * second)
        × (t ≤ u + policy.max_age_seconds * second))
unfolding age_reasons
age_reasons-nil u t policy = (λ h. ground arith, λ h. ground arith)

policy_there :
    (cfg : Config)
    → note (is_none cfg.observation_policy) "observation_policy_missing" ≡ []
    → (policy : ObservationPolicy) × (cfg.observation_policy ≡ some policy)
policy_there cfg h = ground arith

module _ (p : Platform) (cfg : Config) (o : EffectObservation) (now : Option Moment) where
  abbrev ages : List String
  ages =
      age_reasons (observation_time p o.observed_at).0 (evaluation_time now).0
        cfg.observation_policy

  ages_lem :
      (t u : ℕ) (policy : ObservationPolicy) (raw : String)
      → now ≡ some (Moment.aware t)
      → cfg.observation_policy ≡ some policy
      → o.observed_at ≡ some raw
      → is_blank raw ≡ false
      → p.fromisoformat raw ≡ Timestamp.aware u
      → ages ≡ age_reasons (some u) (some t) (some policy)
  unfolding evaluation_time
  ages_lem t u policy raw now_aware there dated blank read =
      rw (now_aware, there, dated, observation_time-aware p raw u blank read)

module _ (p : Platform) (cfg : Config) (effect_id : String) (o : EffectObservation)
    (now : Option Moment) where
  pub reasons-IsAcceptable :
      observation_reasons p cfg effect_id o now ≡ [] → IsAcceptable p cfg effect_id o now
  unfolding observation_reasons
  reasons-IsAcceptable h =
      let (a, h₁) = append-eq-nil _ _ h in
      let (b, h₂) = append-eq-nil _ _ h₁ in
      let (c, h₃) = append-eq-nil _ _ h₂ in
      let (d, h₄) = append-eq-nil _ _ h₃ in
      let (e, f) =
        append-eq-nil (ages p cfg o now) (state_reasons effect_id o.state o.destination_state) h₄ in
      let (t, now_aware) = evaluation_time-nil now a in
      let (policy, there) = policy_there cfg b in
      let (raw, u, dated, blank, read) = observation_time-nil p o.observed_at d in
      let bounds =
        (age_reasons-nil u t policy).0
          (sym (ages_lem p cfg o now t u policy raw now_aware there dated blank read) ∙ e) in
      (
        t,
        u,
        policy,
        raw,
        now_aware,
        there,
        (eq_iff o.effect_id effect_id).0 (not-false _ (note-nil _ _ c)),
        dated,
        blank,
        read,
        bounds.0,
        bounds.1,
        state_reasons-nil effect_id o.state o.destination_state f,
      )

  pub IsAcceptable-reasons :
      IsAcceptable p cfg effect_id o now → observation_reasons p cfg effect_id o now ≡ []
  unfolding observation_reasons evaluation_time
  IsAcceptable-reasons
        (t, u, policy, raw, now_aware, there, same, dated, blank, read, early, recent, coherent) =
      rw (coherent_nil effect_id o.state o.destination_state coherent) (
        rw (now_aware, there, dated, observation_time-aware p raw u blank read)
          (rw (
            (age_reasons-nil u t policy).1 (early, recent),
            (eq_iff o.effect_id effect_id).1 same,
          )))
