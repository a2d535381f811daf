-- ===== src/Psmouse.antt =====
-- linux/kernel26/drivers/input/mouse/psmouse-base.c, the PS/2 mouse driver.
pub mod Packet
pub mod Decode
pub mod Stream
pub mod Invariant
pub mod Command
pub mod Extensions
pub mod Probe
pub mod Settings
pub mod Life
pub mod Connect
pub mod Buffer
mod Tests
