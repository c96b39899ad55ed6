-- ===== src/Drivers.antt =====
-- src/kernel/drivers.
pub mod Keyboard
