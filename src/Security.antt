-- ===== src/Security.antt =====
-- app/security: the redaction of secrets, the keys of the API and the checks before the application
-- starts.
pub mod Redaction
pub mod Startup
pub mod Auth
mod Tests
