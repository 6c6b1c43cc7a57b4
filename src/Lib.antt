-- ===== src/Lib.antt =====
-- django-ansible-base: the parts that decide who may do what, as definitions and theorems.
--
-- A login goes through authenticator maps. Each map has triggers on the groups and attributes of the
-- user, and says whether the user may log in, is a superuser, or has a role in an organization or a
-- team. The claims that come of it are then reconciled with the roles the user holds. Roles are
-- made of permissions under rules, and roles on teams give membership of teams, also through teams
-- that hold them; the roles that give membership of each team are computed and stored, and from them
-- the permissions that each role gives on objects, which answer the questions of access. Resources
-- and assignments are kept in step with those of a server. A cache has a second one to fall back on.
--
-- Files, and the code they model:
--   Base                       shared names, lists, dicts, Python exceptions, texts
--   Authentication/Value       JSON values, and what Python makes of them
--   Authentication/Triggers    ansible_base/authentication/utils/claims.py: process_groups,
--                              process_user_attributes and what they call
--   Authentication/RoleType, Product, Expansion
--                              ansible_base/authentication/utils/authenticator_map.py:
--                              check_role_type and expand_syntax, with dict_cartesian_product of
--                              ansible_base/lib/utils/collection.py
--   Authentication/RoleMapping claims.py: _add_rbac_role_mapping
--   Authentication/Claims      claims.py: create_claims
--   Authentication/Reconcile   claims.py: ReconcileUser and RoleUserAssignmentsCache
--   Rbac/Graph, Rbac/Teams     ansible_base/rbac/caching.py: all_team_parents, all_team_children and
--                              compute_team_member_roles
--   Rbac/Descendants, Validators, Assignments
--                              ansible_base/rbac/validators.py
--   Rbac/Registry              ansible_base/rbac/permission_registry.py: get_child_models
--   Rbac/Evaluations/Keys, Expected, Updates
--                              ansible_base/rbac/models/role.py: what ObjectRole expects and updates;
--                              ansible_base/rbac/caching.py: recompute_role_evaluations
--   Rbac/Evaluations/Prefetch  ansible_base/rbac/prefetch.py: the rows of EvaluationsPrefetch
--   Rbac/Evaluations/Chunks    ansible_base/rbac/caching.py: the chunks of
--                              recompute_all_role_evaluations
--   Rbac/Evaluations/Access    ansible_base/rbac/evaluations.py and the questions of role.py
--   Resources/Fetch, Assignments, Attempts, Executor
--                              ansible_base/resource_registry/tasks/sync.py:
--                              RemoteAssignmentFetcher, _sync_assignments, resource_sync, and the
--                              manifests, orphans, retries and the loop over types of SyncExecutor
--   FallbackCache              ansible_base/lib/cache/fallback_cache.py, for calls that do not overlap
--   Tests                      runs at concrete inputs
--
-- State that the code changes in place is passed along: the claims record, the cache of the
-- reconciliation, the set of teams that a search has seen, the relation of teams to roles. What the
-- database holds is an argument. What Python does with regular expressions of a map, with case
-- folding and with the text of a value is a parameter (the record Python of Authentication/Value, the
-- record Templates of Authentication/Expansion). A call that may raise returns an Outcome or an Option.
--
-- Fuel: the search through the teams of teams has as its depth one more than the number of teams
-- that the mapping lists, and the search through content types as many rounds; each step uses a
-- listed team or type that was not seen before, so neither runs out. The search for child models
-- has one more than the number of registered models, and the walk over all roles one more than the
-- number of roles. The fetch of assignments has the number of pages that are read at most as its
-- fuel, since the server may go on for ever.
--
-- The synchronization works on interfaces: a ResourceStore has the calls of the server and the
-- methods of Resource, an AssignmentStore the functions of ansible_base/rbac/role_sync_utils.py;
-- nothing is relied on but what a theorem names. The rows of the two evaluation tables are one
-- list, where the type of the primary key tells the table; the queries on the models of the
-- application are fields of World.
--
-- Not modelled: messages and logging; calls of the cache with a fallback that overlap; the queries
-- themselves; the creation of organizations and teams; the triggers that keep the evaluations, the
-- prefetched roles of teams and the API around them; authenticator plugins; the models and views of
-- the resource registry; filters and the other helper libraries.
pub mod Base
pub mod Authentication
pub mod Rbac
pub mod Resources
pub mod FallbackCache
pub mod Tests
