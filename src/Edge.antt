-- ===== src/Edge.antt =====
-- The edge in front of the gateway, proxy_opencode/edge.
pub mod Policy
