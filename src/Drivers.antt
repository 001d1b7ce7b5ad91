-- ===== src/Drivers.antt =====
-- kernel/drivers: the keyboard.
pub mod Keyboard
mod Tests
