-- ===== src/Bounded/World/Untouched.antt =====
-- Actions of the workflow that leave the destination as it is, one rule for each way to build an
-- action, and actions that do so unless a condition holds.
use cognous_agent_control_pl.Base.{
  String, Bool, true, false, if◌then◌else◌, ◌≡◌, refl, ◌∙◌, ◌⊎◌, inl, inr,
}
use cognous_agent_control_pl.Base.Outcome.{
  ExnKind, Result, ok, raise, Exec, pure, throw, lift, continue, ◌>>=◌,
}
use cognous_agent_control_pl.Bounded.Destination.{DestinationFile}
use cognous_agent_control_pl.Bounded.Store.{RecordFile, Entry}
use cognous_agent_control_pl.Bounded.World.{World, on_records, record_entry}

-- Whether `m` returns or raises, the destination is then what it was.
pub record Keeps {A : Type 0} (m : Exec World A) : Type 0 where
  pub at : (w : World) → (m w).1.destination ≡ w.destination

module _ {A : Type 0} where
  pub Keeps-pure : (a : A) → Keeps (pure a)
  Keeps-pure a = record { at = λ w. refl }

  pub Keeps-throw : (k : ExnKind) (m : String) → Keeps (throw {A = A} k m)
  Keeps-throw k m = record { at = λ w. refl }

  pub Keeps-lift : (r : Result A) → Keeps (lift r)
  Keeps-lift r = record { at = λ w. refl }

  pub Keeps-records : (m : Exec RecordFile A) → Keeps (on_records m)
  Keeps-records m = record { at = λ w. refl }

  pub Keeps-if : (b : Bool) (m n : Exec World A) → Keeps m → Keeps n → Keeps (if b then m else n)
  Keeps-if true m n km kn = km
  Keeps-if false m n km kn = kn

pub Keeps-entry : (x : Entry) → Keeps (record_entry x)
Keeps-entry x = record { at = λ w. refl }

module _ {A B : Type 0} where
  continue-destination :
      (r : Result A) (f : A → Exec World B) (w : World)
      → ((a : A) → Keeps (f a))
      → (continue r f w).1.destination ≡ w.destination
  continue-destination (ok a) f w kf = (kf a).at w
  continue-destination (raise e) f w kf = refl

  pub Keeps-bind :
      (m : Exec World A) (f : A → Exec World B)
      → Keeps m
      → ((a : A) → Keeps (f a))
      → Keeps (m >>= f)
  Keeps-bind m f km kf = record { at = λ w. continue-destination (m w).0 f (m w).1 kf ∙ km.at w }

pub ruleset keeps_rules =
    (Keeps-pure, Keeps-throw, Keeps-lift, Keeps-records, Keeps-if, Keeps-entry, Keeps-bind)

module _ (P : DestinationFile → Type 0) where
  -- The destination is as it was, or it has become one that satisfies the condition.
  abbrev pub Unless : {A : Type 0} → Exec World A → World → Type 0
  Unless m w = ((m w).1.destination ≡ w.destination) ⊎ P (m w).1.destination

  pub Unless-Keeps : {A : Type 0} (m : Exec World A) (w : World) → Keeps m → Unless m w
  Unless-Keeps m w km = inl (km.at w)

  module _ {A B : Type 0} where
    continue-Unless :
        (r : Result A) (f : A → Exec World B) (w w' : World)
        → w'.destination ≡ w.destination
        → ((a : A) → r ≡ ok a → Unless (f a) w')
        → ((continue r f w').1.destination ≡ w.destination) ⊎ P (continue r f w').1.destination
    continue-Unless (ok a) f w w' same h = elim (h a refl) [
      | inl kept ↦ inl (kept ∙ same)
      | inr changed ↦ inr changed
    ]
    continue-Unless (raise e) f w w' same h = inl same

    -- An action that keeps the destination, and another one after it.
    pub Unless-bind :
        (m : Exec World A) (f : A → Exec World B) (w : World)
        → Keeps m
        → ((a : A) → (m w).0 ≡ ok a → (m w).1.destination ≡ w.destination → Unless (f a) (m w).1)
        → Unless (m >>= f) w
    Unless-bind m f w km h = continue-Unless (m w).0 f w (m w).1 (km.at w) (λ a e. h a e (km.at w))

    -- An action that may change the destination, and another one after it that does not.
    pub Unless-change :
        (m : Exec World A) (f : A → Exec World B) (w : World)
        → ((a : A) → Keeps (f a))
        → Unless m w
        → Unless (m >>= f) w
    Unless-change m f w kf (inl kept) = inl (continue-destination (m w).0 f (m w).1 kf ∙ kept)
    Unless-change m f w kf (inr changed) =
        inr (rw (continue-destination (m w).0 f (m w).1 kf) changed)

  pub Unless-if :
      {A : Type 0} (b : Bool) (m n : Exec World A) (w : World)
      → (b ≡ true → Unless m w)
      → (b ≡ false → Unless n w)
      → Unless (if b then m else n) w
  Unless-if true m n w hm hn = hm refl
  Unless-if false m n w hm hn = hn refl
