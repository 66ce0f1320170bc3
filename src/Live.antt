-- ===== src/Live.antt =====
-- internal/live: the newest status for each subscriber (hub.go), and the rate of an activity
-- (throughput.go).
pub mod Hub
pub mod Throughput
