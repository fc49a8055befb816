-- ===== src/Utils.antt =====
-- include/bc/utils: error codes and messages, `expected`, `overload`.
pub mod Error
pub mod Expected
pub mod Overload
mod Tests
