-- ===== src/Fb.antt =====
-- linux/kernel26/drivers/video/sa1100fb.c, the frame buffer of the LCD controller.
pub mod Defs
pub mod Mode
pub mod Control
pub mod Colour
pub mod Modes
pub mod Blank
mod Tests
