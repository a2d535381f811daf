-- ===== src/Ucb.antt =====
-- linux/kernel26/drivers/misc/ucb1x00-core.c, the core driver of the UCB1x00 codec chips.
pub mod Defs
pub mod Shadow
pub mod Irqs
pub mod Start
mod Tests
