-- ===== src/Records.antt =====
-- src/agent_control_plane/models.py, redaction.py: run records and replay bundles, and their redaction;
-- records.py, frame.py, tools.py, validation.py, replay.py and signing.py, which make and check them.
pub mod Models
pub mod Redaction
pub mod Replay
pub mod Recorder
pub mod Validation
pub mod Tools
pub mod Signing
