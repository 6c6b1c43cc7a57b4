-- ===== src/Authentication.antt =====
-- ansible_base/authentication: the evaluation of authenticator maps into claims.
pub mod Value
pub mod Triggers
pub mod RoleType
pub mod Product
pub mod Expansion
pub mod RoleMapping
pub mod Claims
pub mod Reconcile
