-- ===== src/Api.antt =====
-- internal/api: the session of a request, the middleware in front of the handlers, the routes,
-- and the handlers that create a session.
pub mod Guard
pub mod Routes
pub mod Login
pub mod Fleet
pub mod Settings
