-- ===== src/Pcmcia.antt =====
-- linux/kernel26/drivers/pcmcia/soc_common.c, the PCMCIA socket driver that the boards share.
pub mod Socket
pub mod Status
pub mod Speed
pub mod Irqs
pub mod Probe
pub mod Unwind
mod Tests
