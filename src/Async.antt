-- ===== src/Async.antt =====
-- include/bc/async and src/async: the poller, the scheduler, tasks and sleep.
pub mod BitCeil
pub mod Poller
pub mod Scheduler
pub mod Task
pub mod Results
pub mod Sleep
pub mod Tests
