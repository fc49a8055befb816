-- ===== src/Examples.antt =====
-- examples/: programs that put the library's parts together.
pub mod Sleep
pub mod Sessions
pub mod Servers
pub mod OneTime
mod Tests
