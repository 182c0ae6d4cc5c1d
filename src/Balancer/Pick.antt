-- ===== src/Balancer/Pick.antt =====
-- internal/balancer/pool.go and performance.go: how the pool picks a key for an attempt.
pub mod Distance
pub mod Examples
pub mod Picks
pub mod RoundRobin
pub mod Random
pub mod Score
pub mod Performance
pub mod Acquire
