-- ===== src/Drivers/Keyboard.antt =====
-- kernel/drivers/keyboard.py: the keyboard. Children: the driver, and the proofs.
pub mod Defs
pub mod Buffer
