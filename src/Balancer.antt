-- ===== src/Balancer.antt =====
-- internal/balancer: the statistics of a key, and the pool that picks and settles attempts.
pub mod Cooldown
pub mod Handle
pub mod Examples
pub mod KeyState
pub mod Pool
pub mod Pick
pub mod Settle
pub mod Session
