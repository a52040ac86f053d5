-- ===== src/Collections.antt =====
-- The containers of modules/shared/logs/util.go and modules/shared/util, and the interface of the set
-- library that the first ones use.
pub mod SetOf
pub mod MapSet
pub mod SortOf
pub mod ThreadSafeSlice
pub mod SyncMap
pub mod SyncGroup
