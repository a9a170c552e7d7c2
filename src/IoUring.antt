-- ===== src/IoUring.antt =====
-- run/slave/src/runtime/io_uring: the event loop on completion queues.
pub mod Operation
