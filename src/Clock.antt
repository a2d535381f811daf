-- ===== src/Clock.antt =====
-- linux/kernel26/arch/arm/mach-sa1100/cpu-sa1100.c and generic.c, the change of the clock of the processor.
pub mod Defs
pub mod Safety
pub mod Table
pub mod Screen
mod Tests
