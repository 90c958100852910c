-- ===== src/Kernel.antt =====
-- internal/kernel: the reactor's breaker.
pub mod Breaker
