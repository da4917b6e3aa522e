-- ===== src/Bounded/World.antt =====
-- src/agent_control_plane/bounded.py: what a `BoundedAuthorizationWorkflow` acts on, its record
-- store and its destination, and its parameters. Writes of records reach the disk here: their
-- failures are the subject of `Store`.
pub mod History
pub mod Untouched
use cognous_agent_control_pl.Base.{ℕ, Option}
use cognous_agent_control_pl.Base.Outcome.{Exec}
use cognous_agent_control_pl.Bounded.Models.{ObservationPolicy}
use cognous_agent_control_pl.Bounded.Documents.{Manifest}
use cognous_agent_control_pl.Bounded.Destination.{DestinationFile}
use cognous_agent_control_pl.Bounded.Store.{Document, RecordFile, stored, Entry, written, append}

pub record World : Type 0 where
  pub records : RecordFile
  pub destination : DestinationFile

-- The keyword arguments of `__init__`, apart from the resolver and the two files.
pub record Config : Type 0 where
  pub manifest : Manifest
  pub status_max_age_seconds : ℕ
  pub identity_max_age_seconds : ℕ
  pub mandate_max_age_seconds : ℕ
  pub approval_max_age_seconds : ℕ
  pub clock_tolerance_seconds : ℕ
  pub observation_policy : Option ObservationPolicy

module _ {A : Type 0} where
  abbrev pub on_records : Exec RecordFile A → Exec World A
  on_records m w = let (r, f) = m w.records in (r, record w { records = f })

  abbrev pub on_destination : Exec DestinationFile A → Exec World A
  on_destination m w = let (r, f) = m w.destination in (r, record w { destination = f })

abbrev pub record_entry : Entry → Exec World Unit
record_entry x = on_records (append written x)

-- A world whose records can be read.
abbrev pub world_of : Document → DestinationFile → World
world_of d f = record { records = stored d; destination = f }
