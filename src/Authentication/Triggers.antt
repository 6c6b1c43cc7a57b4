-- ===== src/Authentication/Triggers.antt =====
-- The triggers of an authenticator map: ansible_base/authentication/utils/claims.py, functions
-- `process_groups` and `process_user_attributes` with their helpers, and trigger_definition.py.
-- Log messages are left out, and with them the arguments that only they use.
pub mod Join
pub mod Groups
pub mod Attributes
