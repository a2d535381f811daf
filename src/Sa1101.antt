-- ===== src/Sa1101.antt =====
-- linux/kernel26/arch/arm/common/sa1101.c, the interrupts and the devices of the SA-1101 companion chip.
pub mod Defs
pub mod Dispatch
pub mod Chips
mod Tests
