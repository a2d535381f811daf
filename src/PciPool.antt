-- ===== src/PciPool.antt =====
-- linux/kernel/arch/arm/mach-sa1100/pcipool.c, the pool of small DMA blocks. `Defs` has its
-- functions; its children prove what they promise.
pub mod Defs
pub mod Bitmap
pub mod Pages
pub mod Alloc
pub mod Outcomes
pub mod Valid
pub mod Size
mod Tests
