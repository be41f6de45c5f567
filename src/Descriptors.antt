-- ===== src/Descriptors.antt =====
-- src/e1000/descriptors.rs: the descriptor ring and the formats of the descriptors.
pub mod Ring
pub mod Formats
