-- ===== src/Bounded/Destination/Laws.antt =====
-- What `LocalRefundDestination.apply` and `observe` guarantee: one effect for an identity, a cap
-- for a grant, counts that agree with the effects, and an answer on every branch.
use cognous_agent_control_pl.Base.{
  ℕ, ◌+◌, ◌≤◌, ◌<◌, String, true, Option, none, some, List, [], ◌∷◌, ◌++◌, ◌≡◌, refl, arith, Dict,
  get, get-put, put_absent, leb, ◌==◌, eq_iff, if◌then◌else◌, Option-cases, Bool-cases, inl, inr,
}
use cognous_agent_control_pl.Base.Outcome.{runtime_error, ok, raise}
use cognous_agent_control_pl.Bounded.Destination.{
  open_destination, Effect, DestinationState, DestinationFile, readable, unreadable, ApplyCall,
  used, effect_of, commit, apply, acknowledge, empty_destination,
}

-- The number of committed effects of a grant.
unfoldable pub effects_of : String → Dict Effect → ℕ
effects_of g [] = 0
effects_of g ((k, e) ∷ d) = (if g == e.grant_id then 1 else 0) + effects_of g d

-- Each effect stands under its own identity, and each grant's count is the number of its effects.
pub record IsConsistent (s : DestinationState) : Type 0 where
  pub identified : (k : String) (e : Effect) → get k s.effects ≡ some e → e.effect_id ≡ k
  pub counted : (g : String) → used g s ≡ effects_of g s.effects

effects_of-append :
    (g k : String) (e : Effect) (d : Dict Effect)
    → effects_of g (d ++ (k, e) ∷ []) ≡ effects_of g d + (if g == e.grant_id then 1 else 0)
unfolding effects_of
effects_of-append g k e [] = omega arith
effects_of-append g k e (x ∷ d) = omega (arith, effects_of-append g k e d)

used-commit :
    (c : ApplyCall) (s : DestinationState) (g : String)
    → used g (commit c s) ≡ used g s + (if g == c.grant_id then 1 else 0)
unfolding used commit
used-commit c s g =
    ground (
      arith,
      eq_iff g c.grant_id,
      get-put c.grant_id g (used c.grant_id s + 1) s.grant_effect_counts,
    )

pub effects_of-commit :
    (c : ApplyCall) (s : DestinationState) (g : String)
    → get c.effect_id s.effects ≡ none
    → effects_of g (commit c s).effects
      ≡ effects_of g s.effects + (if g == c.grant_id then 1 else 0)
unfolding commit effect_of
effects_of-commit c s g h =
    rw (put_absent c.effect_id (effect_of c) s.effects h)
      (effects_of-append g c.effect_id (effect_of c) s.effects)

identified-commit :
    (c : ApplyCall) (s : DestinationState) (k : String) (e : Effect)
    → IsConsistent s
    → get k (commit c s).effects ≡ some e
    → e.effect_id ≡ k
unfolding commit effect_of
identified-commit c s k e v p =
    ground
      (arith, get-put c.effect_id k (effect_of c) s.effects, eq_iff k c.effect_id, v.identified k e)

pub commit-IsConsistent :
    (c : ApplyCall) (s : DestinationState)
    → get c.effect_id s.effects ≡ none
    → IsConsistent s
    → IsConsistent (commit c s)
commit-IsConsistent c s h v = record {
  identified = λ k e p. identified-commit c s k e v p;
  counted = λ g. omega (arith, used-commit c s g, effects_of-commit c s g h, v.counted g);
}

-- A file that can be read holds a consistent state.
abbrev pub FileIsConsistent : DestinationFile → Type 0
FileIsConsistent (readable s) = IsConsistent s
FileIsConsistent (unreadable e) = Unit

pub empty-IsConsistent : IsConsistent empty_destination
unfolding used effects_of get
empty-IsConsistent = record { identified = λ k e p. cc; counted = λ g. refl }

-- A destination that is opened is consistent if the file that is there is.
pub open_destination-FileIsConsistent :
    (o : Option DestinationFile)
    → ((f : DestinationFile) → o ≡ some f → FileIsConsistent f)
    → FileIsConsistent (open_destination o)
unfolding open_destination
open_destination-FileIsConsistent none h = empty-IsConsistent
open_destination-FileIsConsistent (some f) h = h f refl

pub acknowledge-file : (c : ApplyCall) (f : DestinationFile) → (acknowledge c f).1 ≡ f
unfolding acknowledge
acknowledge-file c f = ground arith

-- The answer of `apply` and the file that it leaves, by whether the effect is there and whether
-- the grant has room.
pub apply_seen :
    (c : ApplyCall) (s : DestinationState) (e : Effect)
    → get c.effect_id s.effects ≡ some e
    → apply c (readable s) ≡ (ok (record { duplicate = true; effect = e }), readable s)
unfolding apply
apply_seen c s e h = ground arith

pub apply_full :
    (c : ApplyCall) (s : DestinationState)
    → get c.effect_id s.effects ≡ none
    → c.max_effects ≤ used c.grant_id s
    → apply c (readable s) ≡ (
      raise (record { kind = runtime_error; message = "cumulative grant max_effects exhausted" }),
      readable s,
    )
unfolding apply
apply_full c s h full = ground arith

pub apply_room :
    (c : ApplyCall) (s : DestinationState)
    → get c.effect_id s.effects ≡ none
    → used c.grant_id s < c.max_effects
    → apply c (readable s) ≡ acknowledge c (readable (commit c s))
unfolding apply
apply_room c s h room = ground arith

-- The three cases of a call on a readable file.
pub data Case (c : ApplyCall) (s : DestinationState) : Type 0 where
  seen : (e : Effect) → get c.effect_id s.effects ≡ some e → Case c s
  full : get c.effect_id s.effects ≡ none → c.max_effects ≤ used c.grant_id s → Case c s
  room : get c.effect_id s.effects ≡ none → used c.grant_id s < c.max_effects → Case c s

pub cases : (c : ApplyCall) (s : DestinationState) → Case c s
cases c s = elim (Option-cases (get c.effect_id s.effects)) [
  | inr (e, h) ↦ seen e h
  | inl h ↦ elim (Bool-cases (leb c.max_effects (used c.grant_id s))) [
    | inl q ↦ full h (ground arith)
    | inr q ↦ room h (ground arith)
  ]
]

-- A call, whatever its outcome, keeps every committed effect under its own identity and every
-- grant's count equal to the number of its committed effects.
pub apply-IsConsistent :
    (c : ApplyCall) (f : DestinationFile) → FileIsConsistent f → FileIsConsistent (apply c f).1
apply-IsConsistent c (unreadable e) v = unfold apply in tt
apply-IsConsistent c (readable s) v = elim (cases c s) [
  | seen e h ↦ rw (apply_seen c s e h) v
  | full h q ↦ rw (apply_full c s h q) v
  | room h q ↦
      rw (apply_room c s h q, acknowledge-file c (readable (commit c s)))
        (commit-IsConsistent c s h v)
]

-- The effects committed for a grant in a file, none where it cannot be read.
unfoldable pub committed : String → DestinationFile → ℕ
committed g (readable s) = effects_of g s.effects
committed g (unreadable e) = 0

-- The calls made one after another, each whether or not the last one raised.
unfoldable pub apply_all : List ApplyCall → DestinationFile → DestinationFile
apply_all [] f = f
apply_all (c ∷ cs) f = apply_all cs (apply c f).1
