-- ===== src/Registers.antt =====
-- The register file of src/e1000/registers.rs: the structs, their bit layouts and their defaults.
pub mod General
pub mod Rings
pub mod File
pub mod Addresses
