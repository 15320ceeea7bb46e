-- ===== src/Auth.antt =====
-- The gateway's keys: proxy_opencode/auth.
pub mod Keystore
pub mod Core
mod Tests
