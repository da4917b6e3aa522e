-- ===== src/Bounded/World/History.antt =====
-- Actions of the workflow that only add to the history, one rule for each way to build an action.
use cognous_agent_control_pl.Base.{Bool, true, false, if◌then◌else◌, ◌≡◌, refl}
use cognous_agent_control_pl.Base.Outcome.{
  ExnKind, Result, ok, raise, Exec, pure, throw, lift, continue, ◌>>=◌, attempting, when,
}
use cognous_agent_control_pl.Base.{String}
use cognous_agent_control_pl.Bounded.Destination.{DestinationFile}
use cognous_agent_control_pl.Bounded.Store.{
  RecordFile, missing, corrupt, stored, Entry, written, load, lookup_decision,
}
use cognous_agent_control_pl.Bounded.Store.Append.{Grows, Grows-refl, Grows-trans, append-Grows}
use cognous_agent_control_pl.Bounded.World.{World, on_records, on_destination, record_entry}

-- Whether `m` returns or raises, the records are then a later version of what they were.
pub record Adds {A : Type 0} (m : Exec World A) : Type 0 where
  pub at : (w : World) → Grows w.records (m w).1.records

module _ {A : Type 0} where
  pub Adds-pure : (a : A) → Adds (pure a)
  Adds-pure a = record { at = λ w. Grows-refl w.records }

  pub Adds-throw : (k : ExnKind) (m : String) → Adds (throw {A = A} k m)
  Adds-throw k m = record { at = λ w. Grows-refl w.records }

  pub Adds-lift : (r : Result A) → Adds (lift r)
  Adds-lift r = record { at = λ w. Grows-refl w.records }

  pub Adds-destination : (m : Exec DestinationFile A) → Adds (on_destination m)
  Adds-destination m = record { at = λ w. Grows-refl w.records }

  pub Adds-if : (b : Bool) (m n : Exec World A) → Adds m → Adds n → Adds (if b then m else n)
  Adds-if true m n km kn = km
  Adds-if false m n km kn = kn

  pub Adds-attempting : (m : Exec World A) → Adds m → Adds (attempting m)
  Adds-attempting m km = record { at = λ w. km.at w }

pub Adds-entry : (x : Entry) → Adds (record_entry x)
Adds-entry x = record { at = λ w. append-Grows written x w.records }

pub Adds-when : (b : Bool) (m : Exec World Unit) → Adds m → Adds (when b m)
Adds-when true m km = km
Adds-when false m km = record { at = λ w. Grows-refl w.records }

pub lookup_decision-keeps : (k : String) (f : RecordFile) → (lookup_decision k f).1 ≡ f
unfolding lookup_decision
lookup_decision-keeps k missing = refl
lookup_decision-keeps k (corrupt e) = refl
lookup_decision-keeps k (stored d) = refl

pub load-keeps : (f : RecordFile) → (load f).1 ≡ f
unfolding load
load-keeps missing = refl
load-keeps (corrupt e) = refl
load-keeps (stored d) = refl

pub Adds-lookup : (k : String) → Adds (on_records (lookup_decision k))
Adds-lookup k = record { at = λ w. rw (lookup_decision-keeps k w.records) (Grows-refl w.records) }

pub Adds-load : Adds (on_records load)
Adds-load = record { at = λ w. rw (load-keeps w.records) (Grows-refl w.records) }

module _ {A B : Type 0} where
  continue-Grows :
      (r : Result A) (f : A → Exec World B) (w : World)
      → ((a : A) → Adds (f a))
      → Grows w.records (continue r f w).1.records
  continue-Grows (ok a) f w kf = (kf a).at w
  continue-Grows (raise e) f w kf = Grows-refl w.records

  pub Adds-bind :
      (m : Exec World A) (f : A → Exec World B) → Adds m → ((a : A) → Adds (f a)) → Adds (m >>= f)
  Adds-bind m f km kf = record {
    at = λ w.
        let (r, w') = m w in
        Grows-trans w.records w'.records _ (km.at w) (continue-Grows r f w' kf);
  }

pub ruleset adds_rules = (
  Adds-pure, Adds-throw, Adds-lift, Adds-destination, Adds-if, Adds-attempting, Adds-entry,
  Adds-when, Adds-lookup, Adds-load, Adds-bind,
)
