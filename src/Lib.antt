-- ===== src/Lib.antt =====
-- kxco-post-quantum: post-quantum signatures, key encapsulation, seed-form keys, webhook signatures
-- and a self-contained module after FIPS 140-3, in JavaScript.
--
-- The parts, their files from the repository's root, and where they are modelled:
--   Value            the JavaScript values that the functions tell apart
--   Codec            the helpers that several files repeat: hex (Codec/Hex), base64url with and
--                    without Buffer (Codec/Base64), UTF-8 (Codec/Utf8), the comparison in constant
--                    time (Codec/Equal), trim (Codec/Trim); Codec/Utf8/Decode is TextDecoder
--   Json             JSON.parse (Json/Scan, Json/Parse) and JSON.stringify, plain or indented
--                    (Json/Quote, Json/Print, Json/Numbers), which src/jws.js, src/fips/index.js and the release
--                    scripts call
--   Jws              src/jws.js: the table of algorithms; the segments (Jws/Segments), signJws
--                    (Jws/Sign), verifyJws and decodeJwsHeader (Jws/Verify)
--   Seed             src/seed.js: the parameter sets (Seed/Params), DER (Seed/Der), PKCS#8
--                    (Seed/Pkcs8), expansion and derivation (Seed/Keys), JWK (Seed/Jwk)
--   Derive           src/derive.js: deriveSeed
--   Context          src/_context.js: normalizeContext
--   Native           src/_native.node.js: the pin of the operator, the probe, the encodings and the
--                    calls of OpenSSL
--   Signature        src/ml-dsa.js, src/ml-dsa-87.js and src/slh-dsa.js, which are one wrapper at
--                    three parameter sets (Signature/Sets)
--   Kem              src/ml-kem.js and src/ml-kem-1024.js
--   Backend          src/backend.js: the report on the backend, requireBackend and the check on
--                    import
--   Kid              src/kid.js: fingerprint and kidEquals
--   Webhook          src/webhook.js: the envelope, the HMAC half, the signature half, deliveries
--   Fips             src/fips: entropy.js (Fips/Entropy), drbg.js (Fips/Drbg), module.js
--                    (Fips/Services), selftest.js (Fips/SelfTest), index.js (Fips/Machine; the
--                    integrity test in Fips/Files and Fips/Integrity, what import and selfTest make
--                    of all tests in Fips/Import)
--   Release          scripts/build-fips-manifest.mjs (Release/Manifest) and scripts/sign-release.mjs
--                    (Release/Sign), over what they use of the file system (Release/Disk)
--   Acvts            conformance/acvts/responders.mjs, the answers to a prompt of the ACVP server
--                    (Acvts/Respond), and responders-native.mjs beside it, over OpenSSL
--                    (Acvts/OpenSsl)
--   Prelude, Tests   shared helpers; runs and the theorems at concrete inputs
--
-- How they interact: a wrapper of Signature or Kem asks Native whether OpenSSL serves the parameter
-- set (and honours a context) and calls it or the JavaScript primitives. Webhook signs its envelope
-- with the wrappers of Signature, and so does Jws the first two segments of a token; the header of a
-- token goes through Json, UTF-8 and base64url, and back through their strict readers. A service of
-- Fips/Services transforms a World, the generator with what the entropy device will give; Fips/Machine
-- wraps it by the state of the module, and Fips/Import runs the tests that lead to its first state. The
-- integrity test among them reads what the two scripts of Release have written: the manifest goes
-- through JSON, UTF-8 and the disk, the signature through hex and the wrappers of Signature.
--
-- Conventions. Numbers are natural numbers, bytes are numbers below 256 (`IsByte`, where a theorem
-- needs it), strings are lists of UTF-16 code units. A call that may throw returns a Result, an
-- Outcome or an Option. What is not in the repository is a parameter: `node:crypto`, Buffer, the
-- clock, the entropy device, SHA-256, HMAC, HKDF and the algorithms of @noble/post-quantum.
--
-- JSON. A number is the text that stands for it, as the code computes with none: the literal that
-- `JSON.parse` read or, in a value to be written, what `JSON.stringify` writes. Only
-- scripts/build-fips-manifest.mjs writes what it has read, the version of `package.json`; there
-- Json/Numbers turns the one into the other, by a parameter for the engine's doubles. An object is its
-- members in the order of the text; `JSON.parse` puts array indices first, which shows only in the
-- order of the header that is handed back and in which file is reported first. The options of
-- `signJws` hold strings, and its payload is a JSON value where it is an object.
--
-- Headers. `signDelivery` returns its headers under the names X-KXCO-*, and `verifyDelivery` reads
-- x-kxco-*: the HTTP server between them turns names to lower case. What it does is a hypothesis,
-- `Arrives`, of the theorem on the passage of a delivery.
--
-- Bounds. `parse` runs on twice the length of the text and one: a call of `parse_value` consumes a
-- character before it goes on, and each element or member costs two units. `output_loop` of the
-- generator runs on as many rounds as bytes are wanted, and each round gives at least one.
-- `to_decimal` writes 20 digits at most, more than a clock in milliseconds has. The length of a DER
-- field is read from three bytes at most, so the shift to the left does not overflow 32 bits.
--
-- Not modelled: the known answers and the release key of src/fips, which are parameters, the vendored
-- copies of @noble under src/fips/vendor, the overwriting of arrays that no later operation reads, and
-- the other drivers of conformance, audits, benchmarks and fuzzing.
pub mod Prelude
pub mod Codec
pub mod Release
pub mod Acvts
pub mod Value
pub mod Seed
pub mod Derive
pub mod Context
pub mod Native
pub mod Signature
pub mod Kem
pub mod Fips
pub mod Backend
pub mod Json
pub mod Jws
pub mod Kid
pub mod Webhook
pub mod Tests
