-- ===== src/Webhook.antt =====
-- src/webhook.js: hybrid HMAC and ML-DSA signatures of webhook deliveries. HMAC-SHA-256 of
-- `@noble/hashes` is the parameter `hmac`; the two ML-DSA modules are those of src/.
pub mod Envelope
pub mod Hmac
pub mod Pq
pub mod Delivery
