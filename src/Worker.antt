-- ===== src/Worker.antt =====
-- The worker SDK (worker): the parts of it that decide, apart from the network.
pub mod Semaphore
