-- ===== src/Drivers.antt =====
-- kernel/src/drivers: the keyboard.
pub mod Keyboard
