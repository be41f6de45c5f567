-- ===== src/Tests.antt =====
-- The theorems at concrete inputs: a device in surroundings that hold 64 kB of zeros and one
-- packet to be sent.
mod Data
mod Rings
mod Segments
mod Signals
mod Deliveries
mod Stores
mod Worlds
mod Starts
mod Hosts
mod Sessions
