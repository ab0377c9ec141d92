-- ===== src/Release.antt =====
-- The scripts that make a release: scripts/build-fips-manifest.mjs and scripts/sign-release.mjs.
pub mod Disk
pub mod Manifest
pub mod Sign
pub mod Tree
pub mod Own
pub mod Digests
pub mod Signed
pub mod SignedBy
pub mod Passes
pub mod Version
pub mod Flow
pub mod Returns
