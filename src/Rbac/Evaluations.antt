-- ===== src/Rbac/Evaluations.antt =====
-- The cached evaluations of object roles: what a role gives (ansible_base/rbac/models/role.py), the
-- rows that are written (ansible_base/rbac/caching.py) and how they answer questions of access
-- (ansible_base/rbac/evaluations.py).
pub mod Keys
pub mod Expected
pub mod Updates
pub mod Access
pub mod Prefetch
pub mod Chunks
