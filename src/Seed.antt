-- ===== src/Seed.antt =====
-- src/seed.js: seed-form keys. The parameter sets stand here; DER, PKCS#8 and JWK have a module
-- each.
pub mod Der
pub mod Params
pub mod Pkcs8
pub mod Keys
pub mod Jwk
