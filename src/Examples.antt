-- ===== src/Examples.antt =====
-- Runs on concrete inputs: a small cluster, small streams of records, paths, clients, the health of a
-- service, lists, and the command that shows logs.
pub mod Cluster
pub mod Objects
pub mod Records
pub mod Paths
pub mod Clients
pub mod Dashboard
pub mod Cli
