-- ===== src/Authz.antt =====
-- app/authz: who may do what to a list.
pub mod Permissions
pub mod Dependencies
