-- ===== src/Threads.antt =====
-- thread/producerAndConsumer: a producer and a consumer that share a buffer.
pub mod Semaphore
pub mod Condition
mod Examples
