-- ===== src/Examples.antt =====
-- Concrete runs of the theorems: a manifest with one refund action, the authority for one refund,
-- and a platform whose timestamps are written in unary.
pub mod Clock
pub mod Refund
pub mod Authority
pub mod Destinations
pub mod Records
pub mod Runs
pub mod Commits
pub mod Registered
pub mod Policies
pub mod Inputs
pub mod Redacted
pub mod Sequences
pub mod Recorded
pub mod Controlled
pub mod Claims
pub mod Profiled
