-- ===== src/Egress.antt =====
-- The egress buckets of the gateway (proxy_opencode/egress): their state, and the pool that leases
-- them to requests.
pub mod Models
pub mod Ledger
pub mod Pool
pub mod Counts
pub mod CountRows
pub mod Counters
pub mod Rotation
pub mod Rotator
