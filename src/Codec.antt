-- ===== src/Codec.antt =====
-- The byte and text helpers that several files of src/ repeat: hexadecimal (src/kid.js,
-- src/jws.js, src/webhook.js, src/ml-dsa-87.js), base64url (src/jws.js, src/seed.js), the
-- constant-time comparisons, and UTF-8 as `TextEncoder` writes it.
pub mod Hex
pub mod Equal
pub mod Base64
pub mod Utf8
pub mod Trim
