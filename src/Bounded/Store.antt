-- ===== src/Bounded/Store.antt =====
-- src/agent_control_plane/bounded.py: `BoundedRecordStore`, a JSON document under a file lock.
-- The lock makes each method one step on the document, whichever process makes it: an instance
-- keeps no copy. A document that does not parse or validate raises on every read.
pub mod Append
pub mod Lookup
use cognous_agent_control_pl.Base.{
  ℕ, String, Bool, true, false, Option, none, some, List, [], ◌∷◌, ◌++◌, Dict, ltb, ◌&&◌, not, mem,
  ◌==◌, keep, if◌then◌else◌, is_none,
}
use cognous_agent_control_pl.Base.Outcome.{
  Exn, runtime_error, Result, ok, raise, Exec, pure, throw, lift, ◌>>=◌, ◌>>◌,
}
use cognous_agent_control_pl.Bounded.Models.{
  Value, RuntimeDecision, EffectTimeRefusal, EffectAttempt, EffectObservation, ReconciliationResult,
  BoundedRunRecord,
}

-- A valid document, with the members that the model does not know, kept as they were read.
pub record Document : Type 0 where
  pub run : BoundedRunRecord
  pub extensions : Dict Value

pub data RecordFile : Type 0 where
  missing : RecordFile
  corrupt : Exn → RecordFile
  stored : Document → RecordFile

-- What the disk does with one `_write`: it may fail before the rename, which leaves the old
-- document, or at the last `fsync`, when the new one is already in place.
pub data Disk : Type 0 where
  written : Disk
  fails_before : Exn → Disk
  fails_after : Exn → Disk

-- `_write`
unfoldable pub write : Disk → Document → Exec RecordFile Unit
write written d f = (ok tt, stored d)
write (fails_before e) d f = (raise e, f)
write (fails_after e) d f = (raise e, stored d)

abbrev missing_file : Exn
missing_file = record {
  kind = cognous_agent_control_pl.Base.Outcome.file_not_found;
  message = "No such file or directory";
}

-- `_read_document`
unfoldable pub read_document : Exec RecordFile Document
read_document missing = (raise missing_file, missing)
read_document (corrupt e) = (raise e, corrupt e)
read_document (stored d) = (ok d, stored d)

abbrev pub empty_run : String → BoundedRunRecord
empty_run run_id = record {
  run_id = run_id;
  decisions = [];
  refusals = [];
  attempts = [];
  observations = [];
  reconciliations = [];
}

abbrev pub supported_filesystems : List String
supported_filesystems = "ext2" ∷ "ext3" ∷ "ext4" ∷ "xfs" ∷ "btrfs" ∷ "tmpfs" ∷ "overlay" ∷ []

-- `max(mounts, key=lambda item: item[0])[1]`: of the mounts above the path, by the length of their
-- paths, the first of the longest.
unfoldable pub deepest : ℕ → String → List (ℕ × String) → String
deepest n fs [] = fs
deepest n fs ((m, other) ∷ rest) =
    deepest (if ltb n m then m else n) (if ltb n m then other else fs) rest

unfoldable pub is_supported : List (ℕ × String) → Bool
unfolding deepest
is_supported [] = false
is_supported ((n, fs) ∷ rest) = mem (deepest n fs rest) supported_filesystems

-- `_require_local_locking`, for a platform with or without flock and the mounts above the path.
unfoldable pub require_local_locking : Bool → List (ℕ × String) → Exec RecordFile Unit
unfolding is_supported
require_local_locking flock mounts =
    if not flock
    then throw runtime_error "BoundedRecordStore requires Linux local filesystem flock support"
    else (if is_supported mounts
        then pure tt
        else throw runtime_error "BoundedRecordStore filesystem is not supported for local locking")

-- `__init__` in the transaction: only a missing file is initialized.
initialize : String → Disk → RecordFile → Exec RecordFile Unit
unfolding write read_document
initialize run_id disk missing = write disk (record { run = empty_run run_id; extensions = [] })
initialize run_id disk f = do read_document; pure tt

unfoldable pub open_store : Bool → List (ℕ × String) → String → Disk → Exec RecordFile Unit
unfolding require_local_locking initialize
open_store flock mounts run_id disk = do
  require_local_locking flock mounts
  λ f. initialize run_id disk f f

unfoldable pub load : Exec RecordFile BoundedRunRecord
unfolding read_document
load = do d ← read_document; pure d.run

-- What the append methods add, each to its own list.
pub data Entry : Type 0 where
  decision : RuntimeDecision → Entry
  refusal : EffectTimeRefusal → Entry
  attempt : EffectAttempt → Entry
  observation : EffectObservation → Entry
  reconciliation : ReconciliationResult → Entry

-- `document.setdefault(field, []).append(value)`
unfoldable pub add : Entry → BoundedRunRecord → BoundedRunRecord
add (decision x) r = record r { decisions = r.decisions ++ x ∷ [] }
add (refusal x) r = record r { refusals = r.refusals ++ x ∷ [] }
add (attempt x) r = record r { attempts = r.attempts ++ x ∷ [] }
add (observation x) r = record r { observations = r.observations ++ x ∷ [] }
add (reconciliation x) r = record r { reconciliations = r.reconciliations ++ x ∷ [] }

-- `_append`: reload in the transaction, add, and replace.
unfoldable pub append : Disk → Entry → Exec RecordFile Unit
unfolding read_document add write
append disk x = do
  d ← read_document
  write disk (record { run = add x d.run; extensions = d.extensions })

only_match : List RuntimeDecision → Option RuntimeDecision
only_match (d ∷ []) = some d
only_match _ = none

-- The decision with the identity, if exactly one has it.
unfoldable pub find_decision : String → List RuntimeDecision → Option RuntimeDecision
unfolding only_match
find_decision decision_id ds = only_match (keep (λ d. d.decision_id == decision_id) ds)

-- `decision`
unfoldable pub lookup_decision : String → Exec RecordFile (Option RuntimeDecision)
unfolding load find_decision
lookup_decision decision_id = do r ← load; pure (find_decision decision_id r.decisions)
