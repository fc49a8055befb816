-- ===== src/Log.antt =====
-- include/bc/log and src/log: records and levels, the formatter, the worker with its loggers, and the calls that log.
pub mod Record
pub mod Formatter
pub mod Worker
pub mod Wrappers
pub mod Destructor
mod Tests
