-- ===== src/Examples/Records.antt =====
-- The theorems of the record store and of the manifest, run on the refund.
use cognous_agent_control_pl.Base.{
  ℕ, String, true, some, none, List, [], ◌∷◌, ◌++◌, ◌≡◌, ◌≢◌, ◌↔◌, ◌==◌, if◌then◌else◌,
}
use cognous_agent_control_pl.Base.Outcome.{Exn, ok, os_error}
use cognous_agent_control_pl.Bounded.Models.{RuntimeDecision, DecisionResult}
use cognous_agent_control_pl.Bounded.Documents.{ManifestAction}
use cognous_agent_control_pl.Bounded.Store.{
  Document, Disk, written, fails_before, missing, stored, Entry, empty_run, open_store,
  find_decision,
}
use cognous_agent_control_pl.Bounded.Store.Append.{
  append_all, landed, recorded, append_all-recorded,
}
use cognous_agent_control_pl.Bounded.Store.Lookup.{
  has_decision, open_store-keeps, find_decision-add,
}
use cognous_agent_control_pl.Bounded.Manifest.{
  find_action, manifest_mismatches, matching_permission,
}
use cognous_agent_control_pl.Bounded.Manifest.Declared.{IsDeclared}
use cognous_agent_control_pl.Bounded.Manifest.Complete.{manifest_mismatches_iff}
use cognous_agent_control_pl.Bounded.Manifest.Scope.{Covering, matching_permission-first}
use cognous_agent_control_pl.Examples.Clock.{unary}
use cognous_agent_control_pl.Examples.Refund.{refund_manifest, refund_proposal, refund_grant}
use cognous_agent_control_pl.Examples.Authority.{refund_binding}

abbrev pub refund_decision : RuntimeDecision
refund_decision = record {
  decision_id = "decision-1";
  effect_id = "effect:proposal:case-7/grant-1/r1";
  result = DecisionResult.authorized;
  reasons = [];
  decided_at = "Txxxx";
  binding = some refund_binding;
}

abbrev pub new_document : Document
new_document = record { run = empty_run "run-1"; extensions = [] }

abbrev pub refund_document : Document
refund_document = record {
  run = record (empty_run "run-1") { decisions = refund_decision ∷ [] };
  extensions = [];
}

abbrev full_disk : Exn
full_disk = record { kind = os_error; message = "No space left on device" }

-- A write that fails before the rename, and one that is done.
abbrev attempts_to_write : List (Disk × Entry)
attempts_to_write =
    (fails_before full_disk, Entry.decision refund_decision)
    ∷ (written, Entry.decision refund_decision)
    ∷ []

append_all-recorded_example :
    append_all attempts_to_write (stored new_document)
    ≡ stored
        (record { run = recorded (landed attempts_to_write) (empty_run "run-1"); extensions = [] })
append_all-recorded_example = append_all-recorded attempts_to_write new_document

abbrev local_mounts : List (ℕ × String)
local_mounts = (1, "ext4") ∷ (5, "nfs") ∷ []

not_missing : stored refund_document ≢ missing
not_missing h = cc

open_store-keeps_example :
    (open_store true local_mounts "run-2" written (stored refund_document)).1
    ≡ stored refund_document
open_store-keeps_example =
    open_store-keeps true local_mounts "run-2" written (stored refund_document) not_missing

find_decision-add_example : find_decision "decision-1" ([] ++ refund_decision ∷ []) ≡ (
    if refund_decision.decision_id == "decision-1"
    then (if has_decision "decision-1" [] then none else some refund_decision)
    else find_decision "decision-1" [])
find_decision-add_example = find_decision-add refund_decision [] "decision-1"

manifest_mismatches_iff_example :
    (manifest_mismatches unary refund_manifest refund_proposal 4 ≡ ok []) ↔ (
      (a : ManifestAction) × (find_action refund_manifest refund_proposal.action_id ≡ some a)
      × IsDeclared unary refund_manifest refund_proposal 4 a)
manifest_mismatches_iff_example = manifest_mismatches_iff unary 4 refund_manifest refund_proposal

-- The second permission of the grant is the first that covers the refund.
matching_permission-first_example :
    Covering refund_manifest refund_grant.permissions refund_proposal
      (matching_permission refund_manifest refund_grant.permissions refund_proposal)
matching_permission-first_example =
    matching_permission-first refund_manifest refund_grant.permissions refund_proposal
