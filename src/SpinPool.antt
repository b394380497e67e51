-- ===== src/SpinPool.antt =====
-- system-programming/threadpool/spinlock-version: a thread pool over a linked queue of tasks.
pub mod TaskQueue
pub mod Spinlock
pub mod Pool
mod Tests
