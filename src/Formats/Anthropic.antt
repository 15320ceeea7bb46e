-- ===== src/Formats/Anthropic.antt =====
-- The translation between the Anthropic Messages interface and chat completions, of
-- proxy_opencode/formats/anthropic_proto.py. The chunks are those of Zen/Aggregate.antt.
pub mod Body
pub mod Request
pub mod Stream
