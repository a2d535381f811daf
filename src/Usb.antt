-- ===== src/Usb.antt =====
-- linux/kernel/arch/arm/mach-sa1100/usb_ctl.c, the core of the SA-1100 USB device controller.
pub mod Machine
pub mod Trace
pub mod Interrupt
pub mod Service
pub mod Client
mod Tests
