-- ===== src/Logs.antt =====
-- modules/shared/logs: the parts of the log pipeline.
pub mod WorkloadType
pub mod Path
pub mod Objects
pub mod Index
pub mod Sources
pub mod Select
pub mod Watcher
pub mod Forwarder
pub mod Stream
pub mod Past
pub mod Options
pub mod Heap
pub mod Merge
pub mod Records
pub mod Reader
pub mod Fetcher
