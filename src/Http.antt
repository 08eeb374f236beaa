-- ===== src/Http.antt =====
-- The HTTP layer's own checks, src/http: CSRF tokens, the origin of a request, cookies.
pub mod CsrfTokens
pub mod Patterns
pub mod Headers
pub mod Origin
pub mod RequestSecurity
