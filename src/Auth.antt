-- ===== src/Auth.antt =====
-- internal/auth: the rate limiter, the CSRF protection, the roles and the sessions.
pub mod Limiter
pub mod Csrf
pub mod Rbac
pub mod Session
