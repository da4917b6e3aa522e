-- ===== src/Bounded.antt =====
-- src/agent_control_plane/bounded.py: the bounded authorization-to-effect workflow.
pub mod Models
pub mod Documents
pub mod Destination
pub mod Store
pub mod World
pub mod Observation
pub mod Manifest
pub mod Status
pub mod Context
pub mod Resolve
pub mod Changed
pub mod Decisions
pub mod Workflow
pub mod Synthetic
