-- ===== src/Bounded/Store/Append.antt =====
-- `BoundedRecordStore`: no append is lost, the history only grows, and a document that cannot be
-- read is never replaced.
use cognous_agent_control_pl.Base.{List, [], ◌∷◌, ◌++◌, ◌≡◌, refl, sym, ap, ◌∙◌}
use cognous_agent_control_pl.Bounded.Models.{
  RuntimeDecision, EffectTimeRefusal, EffectAttempt, EffectObservation, ReconciliationResult,
  BoundedRunRecord,
}
use cognous_agent_control_pl.Bounded.Store.{
  Document, RecordFile, missing, corrupt, stored, Disk, written, fails_before, fails_after, Entry,
  decision, refusal, attempt, observation, reconciliation, add, append,
}
use mathlib.Core.List.{append_assoc, append-nil}

-- Appends by any clients in the order in which they get the lock, each with what the disk did.
unfoldable pub append_all : List (Disk × Entry) → RecordFile → RecordFile
append_all [] f = f
append_all ((disk, x) ∷ xs) f = append_all xs (append disk x f).1

-- The entries whose document was put in place, whether or not the append then raised.
abbrev pub landed : List (Disk × Entry) → List Entry
landed [] = []
landed ((written, x) ∷ xs) = x ∷ landed xs
landed ((fails_before e, x) ∷ xs) = landed xs
landed ((fails_after e, x) ∷ xs) = x ∷ landed xs

unfoldable pub add_all : List Entry → BoundedRunRecord → BoundedRunRecord
add_all [] r = r
add_all (x ∷ xs) r = add_all xs (add x r)

append_all_lem :
    (xs : List (Disk × Entry)) (d : Document)
    → append_all xs (stored d)
      ≡ stored (record { run = add_all (landed xs) d.run; extensions = d.extensions })
unfolding append_all add_all append
append_all_lem [] d = refl
append_all_lem ((written, x) ∷ xs) d =
    append_all_lem xs (record { run = add x d.run; extensions = d.extensions })
append_all_lem ((fails_before e, x) ∷ xs) d = append_all_lem xs d
append_all_lem ((fails_after e, x) ∷ xs) d =
    append_all_lem xs (record { run = add x d.run; extensions = d.extensions })

-- The entries of each kind, in order.
abbrev pub decisions_of : List Entry → List RuntimeDecision
decisions_of [] = []
decisions_of (decision x ∷ xs) = x ∷ decisions_of xs
decisions_of (_ ∷ xs) = decisions_of xs

abbrev pub refusals_of : List Entry → List EffectTimeRefusal
refusals_of [] = []
refusals_of (refusal x ∷ xs) = x ∷ refusals_of xs
refusals_of (_ ∷ xs) = refusals_of xs

abbrev pub attempts_of : List Entry → List EffectAttempt
attempts_of [] = []
attempts_of (attempt x ∷ xs) = x ∷ attempts_of xs
attempts_of (_ ∷ xs) = attempts_of xs

abbrev pub observations_of : List Entry → List EffectObservation
observations_of [] = []
observations_of (observation x ∷ xs) = x ∷ observations_of xs
observations_of (_ ∷ xs) = observations_of xs

abbrev pub reconciliations_of : List Entry → List ReconciliationResult
reconciliations_of [] = []
reconciliations_of (reconciliation x ∷ xs) = x ∷ reconciliations_of xs
reconciliations_of (_ ∷ xs) = reconciliations_of xs

-- The record, with the entries after what each of its lists held.
abbrev pub recorded : List Entry → BoundedRunRecord → BoundedRunRecord
recorded xs r = record {
  run_id = r.run_id;
  decisions = r.decisions ++ decisions_of xs;
  refusals = r.refusals ++ refusals_of xs;
  attempts = r.attempts ++ attempts_of xs;
  observations = r.observations ++ observations_of xs;
  reconciliations = r.reconciliations ++ reconciliations_of xs;
}

add_all-recorded : (xs : List Entry) (r : BoundedRunRecord) → add_all xs r ≡ recorded xs r
unfolding add_all add
add_all-recorded [] r = rw (
  append-nil r.decisions,
  append-nil r.refusals,
  append-nil r.attempts,
  append-nil r.observations,
  append-nil r.reconciliations,
)
add_all-recorded (decision x ∷ xs) r =
    add_all-recorded xs (add (decision x) r)
    ∙ rw (append_assoc r.decisions (x ∷ []) (decisions_of xs))
add_all-recorded (refusal x ∷ xs) r =
    add_all-recorded xs (add (refusal x) r) ∙ rw (append_assoc r.refusals (x ∷ []) (refusals_of xs))
add_all-recorded (attempt x ∷ xs) r =
    add_all-recorded xs (add (attempt x) r) ∙ rw (append_assoc r.attempts (x ∷ []) (attempts_of xs))
add_all-recorded (observation x ∷ xs) r =
    add_all-recorded xs (add (observation x) r)
    ∙ rw (append_assoc r.observations (x ∷ []) (observations_of xs))
add_all-recorded (reconciliation x ∷ xs) r =
    add_all-recorded xs (add (reconciliation x) r)
    ∙ rw (append_assoc r.reconciliations (x ∷ []) (reconciliations_of xs))

-- After appends by any number of clients, in any order and with any disk failures, each list of the
-- document is what it was, followed by exactly the entries of its kind that reached the disk, in that
-- order; the run identifier and the unknown members are as they were.
pub append_all-recorded :
    (xs : List (Disk × Entry)) (d : Document)
    → append_all xs (stored d)
      ≡ stored (record { run = recorded (landed xs) d.run; extensions = d.extensions })
append_all-recorded xs d =
    append_all_lem xs d
    ∙ ap (λ run. stored (record { run = run; extensions = d.extensions }))
        (add_all-recorded (landed xs) d.run)

abbrev pub Prefix {ℓ} : {A : Type ℓ} → List A → List A → Type ℓ
Prefix {A = A} xs ys = (zs : List A) × (ys ≡ xs ++ zs)

module _ {ℓ} {A : Type ℓ} where
  pub Prefix-refl : (xs : List A) → Prefix xs xs
  Prefix-refl xs = ([], sym (append-nil xs))

  pub Prefix-trans : (xs ys zs : List A) → Prefix xs ys → Prefix ys zs → Prefix xs zs
  Prefix-trans xs ys zs (u, p) (v, q) = (u ++ v, rw (q, p) (append_assoc xs u v))

-- A later record: every list begins with what it was.
pub record Extends (r r' : BoundedRunRecord) : Type 0 where
  pub same_run : r'.run_id ≡ r.run_id
  pub decisions : Prefix r.decisions r'.decisions
  pub refusals : Prefix r.refusals r'.refusals
  pub attempts : Prefix r.attempts r'.attempts
  pub observations : Prefix r.observations r'.observations
  pub reconciliations : Prefix r.reconciliations r'.reconciliations

pub Extends-refl : (r : BoundedRunRecord) → Extends r r
Extends-refl r = record {
  same_run = refl;
  decisions = Prefix-refl _;
  refusals = Prefix-refl _;
  attempts = Prefix-refl _;
  observations = Prefix-refl _;
  reconciliations = Prefix-refl _;
}

pub Extends-trans : (r s t : BoundedRunRecord) → Extends r s → Extends s t → Extends r t
Extends-trans r s t h k = record {
  same_run = k.same_run ∙ h.same_run;
  decisions = Prefix-trans _ _ _ h.decisions k.decisions;
  refusals = Prefix-trans _ _ _ h.refusals k.refusals;
  attempts = Prefix-trans _ _ _ h.attempts k.attempts;
  observations = Prefix-trans _ _ _ h.observations k.observations;
  reconciliations = Prefix-trans _ _ _ h.reconciliations k.reconciliations;
}

pub Extends-add : (x : Entry) (r : BoundedRunRecord) → Extends r (add x r)
unfolding add
Extends-add (decision x) r = record {
  same_run = refl;
  decisions = (x ∷ [], refl);
  refusals = Prefix-refl _;
  attempts = Prefix-refl _;
  observations = Prefix-refl _;
  reconciliations = Prefix-refl _;
}
Extends-add (refusal x) r = record {
  same_run = refl;
  decisions = Prefix-refl _;
  refusals = (x ∷ [], refl);
  attempts = Prefix-refl _;
  observations = Prefix-refl _;
  reconciliations = Prefix-refl _;
}
Extends-add (attempt x) r = record {
  same_run = refl;
  decisions = Prefix-refl _;
  refusals = Prefix-refl _;
  attempts = (x ∷ [], refl);
  observations = Prefix-refl _;
  reconciliations = Prefix-refl _;
}
Extends-add (observation x) r = record {
  same_run = refl;
  decisions = Prefix-refl _;
  refusals = Prefix-refl _;
  attempts = Prefix-refl _;
  observations = (x ∷ [], refl);
  reconciliations = Prefix-refl _;
}
Extends-add (reconciliation x) r = record {
  same_run = refl;
  decisions = Prefix-refl _;
  refusals = Prefix-refl _;
  attempts = Prefix-refl _;
  observations = Prefix-refl _;
  reconciliations = (x ∷ [], refl);
}

-- How a file may change: a document to a later one, and nothing else.
abbrev pub Grows : RecordFile → RecordFile → Type 0
Grows (stored d) (stored d') = Extends d.run d'.run × (d'.extensions ≡ d.extensions)
Grows (corrupt e) f = f ≡ corrupt e
Grows missing f = f ≡ missing
Grows (stored d) _ = ⊥

pub Grows-refl : (f : RecordFile) → Grows f f
Grows-refl (stored d) = (Extends-refl d.run, refl)
Grows-refl (corrupt e) = refl
Grows-refl missing = refl

pub Grows-trans : (f g h : RecordFile) → Grows f g → Grows g h → Grows f h
Grows-trans (stored d) (stored e) (stored f) (a, p) (b, q) = (Extends-trans _ _ _ a b, q ∙ p)
Grows-trans (stored d) (stored e) missing p q = q
Grows-trans (stored d) (stored e) (corrupt x) p q = q
Grows-trans (stored d) missing h p q = absurd p
Grows-trans (stored d) (corrupt x) h p q = absurd p
Grows-trans (corrupt e) g h p q = rw p at q
Grows-trans missing g h p q = rw p at q

-- One append, whatever the file and the disk, turns a document into a later one or leaves the file.
pub append-Grows : (disk : Disk) (x : Entry) (f : RecordFile) → Grows f (append disk x f).1
unfolding append
append-Grows disk x missing = refl
append-Grows disk x (corrupt e) = refl
append-Grows written x (stored d) = (Extends-add x d.run, refl)
append-Grows (fails_before e) x (stored d) = Grows-refl (stored d)
append-Grows (fails_after e) x (stored d) = (Extends-add x d.run, refl)
