-- ===== src/Rbac.antt =====
-- The role-based access control of ansible_base/rbac: teams of teams, and the rules on roles.
pub mod Graph
pub mod Teams
pub mod Descendants
pub mod Validators
pub mod Assignments
pub mod Registry
pub mod Evaluations
