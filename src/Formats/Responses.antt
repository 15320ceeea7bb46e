-- ===== src/Formats/Responses.antt =====
-- The translation between the Responses interface and chat completions, of
-- proxy_opencode/formats/responses_proto.py. The chunks are those of Zen/Aggregate.antt.
pub mod Body
pub mod Data
pub mod Request
pub mod Stream
