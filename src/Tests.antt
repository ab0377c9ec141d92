-- ===== src/Tests.antt =====
-- Concrete runs of the library, and each theorem with conditions at a concrete input.
pub mod Samples
pub mod Encodings
pub mod Seeds
pub mod Module
pub mod Messages
pub mod Documents
pub mod Tokens
pub mod Release
pub mod Deliveries
pub mod Scripts
pub mod Backends
pub mod Acvts
