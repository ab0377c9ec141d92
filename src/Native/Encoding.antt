-- ===== src/Native/Encoding.antt =====
-- The DER that src/_native.node.js writes for OpenSSL.
use kxco_post_quantum.Prelude.{
  ℕ, ◌+◌, ◌/◌, ◌^◌, [], ◌∷◌, ◌++◌, ltb, ◌==◌, if◌then◌else◌, length, get_elem?, bit_and, Bytes,
}
use kxco_post_quantum.Value.{uint8_from}
use kxco_post_quantum.Seed.Der.{byte_or_zero, subarray}

abbrev pub der_bit_string : ℕ
der_bit_string = 0x03

-- `Buffer.from` of an array keeps the low eight bits of each element.
unfoldable pub der_length : ℕ → Bytes
der_length n =
    if ltb n 0x80
    then uint8_from (n ∷ [])
    else if ltb n 0x100
    then uint8_from (0x81 ∷ n ∷ [])
    else uint8_from (0x82 ∷ n / 2 ^ 8 ∷ bit_and n 0xff ∷ [])

unfoldable pub der : ℕ → Bytes → Bytes
der tag payload = tag ∷ der_length (length payload) ++ payload

abbrev byte_at : Bytes → ℕ → ℕ
byte_at bs i = byte_or_zero (get_elem? bs i)

-- The AlgorithmIdentifier of an exported key: behind the outer header and the version.
unfoldable pub algorithm_identifier : Bytes → Bytes
algorithm_identifier exported =
    let header_length : ℕ =
      if bit_and (byte_at exported 1) 0x80 == 0 then 2 else 2 + bit_and (byte_at exported 1) 0x7f in
    let start = header_length + 3 in
    subarray exported start (start + 2 + byte_at exported (start + 1))

unfoldable pub to_pkcs8 : Bytes → Bytes → Bytes
to_pkcs8 algid private_bytes =
    let body = 0x02 ∷ 0x01 ∷ 0x00 ∷ algid ++ der 0x04 (der 0x04 private_bytes) in der 0x30 body

unfoldable pub to_spki : Bytes → Bytes → Bytes
to_spki algid public_bytes =
    let bits = der der_bit_string (0x00 ∷ public_bytes) in der 0x30 (algid ++ bits)
