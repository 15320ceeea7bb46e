-- ===== src/Formats/Anthropic/Body/Agree.antt =====
-- The end of a message for a client that streams and for one that does not.
