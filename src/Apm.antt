-- ===== src/Apm.antt =====
-- linux/kernel/arch/arm/mach-sa1100/apm.c, the emulation of the APM BIOS device.
pub mod Defs
pub mod Events
mod Tests
