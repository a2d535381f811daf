-- ===== src/Ohci.antt =====
-- linux/kernel/drivers/usb/host/usb-ohci.c, the driver of the OHCI USB host controller.
pub mod Transfer
pub mod Counts
pub mod Pieces
pub mod Schedule
pub mod Loads
pub mod Lists
pub mod Order
pub mod Removal
pub mod Submit
pub mod Submitted
pub mod Done
pub mod Fifo
pub mod Length
pub mod Transferred
pub mod Endpoints
pub mod Deletion
pub mod Cleared
pub mod Branches
pub mod Entering
pub mod Leaving
mod Tests
