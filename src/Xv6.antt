-- ===== src/Xv6.antt =====
-- lab02: what the course project adds to the xv6 kernel.
pub mod Semaphore
