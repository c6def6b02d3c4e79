-- ===== src/Drv.antt =====
-- The drivers.
pub mod Uart
pub mod Block
