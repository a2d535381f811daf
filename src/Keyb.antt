-- ===== src/Keyb.antt =====
-- linux/kernel/drivers/char/j820_keyb.c, the keyboard and the PS/2 mouse port of the Jornada 820.
pub mod Keymap
pub mod Aux
pub mod Ring
pub mod Fifo
pub mod Reader
pub mod Keys
pub mod Writing
pub mod Start
mod Tests
pub mod Sharing
