-- ===== src/Policy.antt =====
-- src/agent_control_plane/policy_gate.py: the deterministic policy gate, and the models of models.py
-- that it reads and returns.
pub mod Models
pub mod Gate
pub mod Rules
pub mod Scopes
pub mod Allow
