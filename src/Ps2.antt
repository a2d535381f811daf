-- ===== src/Ps2.antt =====
-- linux/kernel26/drivers/input/serio/sa1101ps2.c, the PS/2 port of the SA-1101 under the input layer.
pub mod Defs
pub mod Queue
pub mod Life
mod Tests
