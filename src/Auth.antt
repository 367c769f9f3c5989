-- ===== src/Auth.antt =====
-- auth/: who may do what.
pub mod Identity
pub mod Tiers
pub mod Cache
pub mod Roles
pub mod Resolver
