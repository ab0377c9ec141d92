-- ===== src/Fips.antt =====
-- src/fips/: the cryptographic module. The vendored algorithms are parameters.
pub mod Entropy
pub mod Drbg
pub mod Services
pub mod Machine
pub mod Files
pub mod Integrity
pub mod SelfTest
pub mod Import
