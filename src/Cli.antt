-- ===== src/Cli.antt =====
-- modules/cli: the command that shows logs, and the table it writes.
pub mod TableWriter
pub mod Logs
