-- ===== src/InputProfile.antt =====
-- src/agent_control_plane/decision_input_profile.py: the verification of a decision-input record.
pub mod Json
pub mod Verdict
pub mod Obligations
pub mod Evidence
pub mod Verify
