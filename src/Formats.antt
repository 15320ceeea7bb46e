-- ===== src/Formats.antt =====
-- The wire formats of proxy_opencode/formats.
pub mod Anthropic
pub mod Messages
pub mod Responses
pub mod SseIter
mod Tests
