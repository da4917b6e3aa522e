-- ===== src/LocalAuthority.antt =====
-- src/agent_control_plane/local_authority_effect.py: execution claims for one participating local
-- store, issued from a persisted decision and the authority of the moment.
pub mod Models
pub mod Projections
pub mod Content
pub mod Claim
