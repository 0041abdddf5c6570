-- ===== src/Context.antt =====
-- Contexts of rmw_cyclonedds_c/src/rmw_cyclonedds_c.c: their options, the choice of the domain, and
-- their life from `rmw_init` over `rmw_shutdown` to `rmw_context_fini`.
pub mod DomainId
pub mod Options
pub mod Opening
pub mod Lifecycle
