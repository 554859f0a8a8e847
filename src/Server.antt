-- ===== src/Server.antt =====
-- internal/server: the declared authentication of its routes.
pub mod RouteAuth
