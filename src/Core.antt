-- ===== src/Core.antt =====
-- The crate hitbox-core: the request context, cached values, policies, predicates.
pub mod Context
pub mod Value
pub mod Policy
pub mod Predicate
pub mod Response
pub mod Service
