-- ===== src/Transmit.antt =====
-- The parts of src/e1000/transmit.rs that do not touch the device: sequences of descriptors,
-- segmentation and checksums. (`process_tx_ring` is in Device/Transmit.antt.)
pub mod Buffer
pub mod Sequence
pub mod Segments
