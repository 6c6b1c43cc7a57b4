-- ===== src/Tests.antt =====
-- Runs of the definitions at concrete inputs, and the theorems at inputs that meet their
-- hypotheses.
mod Triggers
mod Expansion
mod Claims
mod Reconcile
mod Teams
mod Evaluations
mod Chunks
mod Validators
mod Assignments
mod Resources
mod FallbackCache
