-- ===== src/Concurrency.antt =====
-- src/concurrency: the queues, the barrier and the thread pool that threads share. A call holds the mutex of its object
-- except while it waits, so a run is a sequence of whole steps.
pub mod Calls
pub mod Queue
pub mod BoundedQueue
pub mod Barrier
pub mod ThreadPool
