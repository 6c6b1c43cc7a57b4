-- ===== src/Resources.antt =====
-- The resource registry: the synchronization of resources and role assignments with a server,
-- ansible_base/resource_registry/tasks/sync.py.
pub mod Fetch
pub mod Assignments
pub mod Attempts
pub mod Executor
