-- ===== src/Balancer/Handle.antt =====
-- internal/balancer/runtime_stats.go, performance.go and stats_reset.go: the statistics handle of
-- a key, with its window of recent attempts.
pub mod Defs
pub mod Counters
pub mod Costs
pub mod Window
pub mod Lifecycle
pub mod Frame
pub mod Ring
pub mod Summary
pub mod Accounts
unfoldable pub use Defs.*
unfoldable pub use Counters.*
unfoldable pub use Costs.*
unfoldable pub use Window.*
unfoldable pub use Lifecycle.*
