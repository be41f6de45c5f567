-- ===== src/Device.antt =====
-- The device, `E1000` of src/e1000.rs: a child for each source file that implements a part of it.
pub mod State
pub mod Interrupts
pub mod Receive
pub mod Transmit
pub mod Management
pub mod Mdi
pub mod Eecd
pub mod Control
pub mod Access
pub mod Regions
pub mod Invariant
pub mod History
