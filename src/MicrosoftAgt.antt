-- ===== src/MicrosoftAgt.antt =====
-- src/agent_control_plane/microsoft_agt.py: the gate that asks the Microsoft Agent Governance Toolkit
-- and Cognous authority of one tool call.
pub mod Models
pub mod Sdk
pub mod Adapter
pub mod Conjunction
