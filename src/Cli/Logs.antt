-- ===== src/Cli/Logs.antt =====
-- modules/cli/cmd/logs.go: what the flags of `kubetail logs` ask of the stream, and the table of its
-- records. Flag parsing is the library's, so a value of `Flags` is what it has read. Durations and
-- timestamps are read by the arguments `parse_duration` and `parse_time`, and a timestamp is printed
-- by `format_time`.
pub mod Flag
pub mod Window
pub mod Table
