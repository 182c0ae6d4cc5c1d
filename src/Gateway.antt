-- ===== src/Gateway.antt =====
-- internal/gateway: the routing of requests to vendors.
pub mod AggregatePool
pub mod ErrorMasking
pub mod VendorPath
pub mod StatsPersister
pub mod StatsRegistry
pub mod ErrorPolicy
pub mod KeyPolicy
