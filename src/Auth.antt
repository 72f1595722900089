-- ===== src/Auth.antt =====
-- internal/auth: roles, the password policy, the login rate limit, CSRF tokens and revocation.
pub mod Rbac
pub mod Password
pub mod RateLimit
pub mod Csrf
