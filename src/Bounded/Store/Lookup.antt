-- ===== src/Bounded/Store/Lookup.antt =====
-- `BoundedRecordStore.__init__` and `decision`: what opening a store may write, and which decisions
-- a later lookup finds.
use cognous_agent_control_pl.Base.{
  ℕ, String, Bool, true, false, none, some, List, [], ◌∷◌, ◌++◌, ◌≡◌, ◌≢◌, refl, ◌⊎◌, inl, inr,
  arith, keep, ◌==◌, if◌then◌else◌, any,
}
use cognous_agent_control_pl.Base.Outcome.{Exn, runtime_error, raise}
use cognous_agent_control_pl.Bounded.Models.{RuntimeDecision}
use cognous_agent_control_pl.Bounded.Store.{
  RecordFile, missing, corrupt, stored, Disk, open_store, find_decision, is_supported,
}

-- Opening a store on a document, valid or not, writes nothing, and a corrupt one is reported.
pub open_store-keeps :
    (flock : Bool) (mounts : List (ℕ × String)) (run_id : String) (disk : Disk) (f : RecordFile)
    → f ≢ missing
    → (open_store flock mounts run_id disk f).1 ≡ f
unfolding open_store
open_store-keeps flock mounts run_id disk missing h = absurd (h refl)
open_store-keeps flock mounts run_id disk (corrupt e) h = ground arith
open_store-keeps flock mounts run_id disk (stored d) h = ground arith

abbrev unsupported : Exn
unsupported = record {
  kind = runtime_error;
  message = "BoundedRecordStore filesystem is not supported for local locking";
}

-- Where the locking cannot be trusted nothing is written, and opening raises.
open_store-refused :
    (flock : Bool) (mounts : List (ℕ × String)) (run_id : String) (disk : Disk) (f : RecordFile)
    → (flock ≡ false) ⊎ (is_supported mounts ≡ false)
    → (e : Exn) × (open_store flock mounts run_id disk f ≡ (raise e, f))
unfolding open_store
open_store-refused false mounts run_id disk f h = (_, refl)
open_store-refused true mounts run_id disk f (inl h) = absurd (ground arith)
open_store-refused true mounts run_id disk f (inr h) = (unsupported, rw h)

-- `any(d.decision_id == decision_id for d in ds)`
abbrev pub has_decision : String → List RuntimeDecision → Bool
has_decision decision_id = any (λ d. d.decision_id == decision_id)

keep-append :
    (k : String) (xs ys : List RuntimeDecision)
    → keep (λ d. d.decision_id == k) (xs ++ ys)
      ≡ keep (λ d. d.decision_id == k) xs ++ keep (λ d. d.decision_id == k) ys
keep-append k [] ys = refl
keep-append k (x ∷ xs) ys = ground (arith, keep-append k xs ys)

keep_none :
    (k : String) (xs : List RuntimeDecision)
    → has_decision k xs ≡ false
    → keep (λ d. d.decision_id == k) xs ≡ []
keep_none k [] h = refl
keep_none k (x ∷ xs) h = ground (arith, keep_none k xs)

keep_some :
    (k : String) (xs : List RuntimeDecision)
    → has_decision k xs ≡ true
    → keep (λ d. d.decision_id == k) xs ≢ []
keep_some k [] h = ground arith
keep_some k (x ∷ xs) h = ground (arith, keep_some k xs)

-- A decision recorded under a new identity is the one that is found; under an identity that is in
-- use it makes the identity ambiguous, and nothing is found; other lookups are as before.
pub find_decision-add :
    (d : RuntimeDecision) (ds : List RuntimeDecision) (k : String)
    → find_decision k (ds ++ d ∷ []) ≡ (
        if d.decision_id == k
        then (if has_decision k ds then none else some d)
        else find_decision k ds)
unfolding find_decision
find_decision-add d ds k =
    rw (keep-append k ds (d ∷ [])) (ground (arith, keep_none k ds, keep_some k ds))
