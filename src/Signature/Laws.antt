-- ===== src/Signature/Laws.antt =====
-- What `sign` and `verify` promise on every backend.
use kxco_post_quantum.Prelude.{
  ◌≡◌, refl, sym, ap, ◌∙◌, true, Option, some, arith, All, Text, Bytes, IsByte, ok, Option-cases,
  Result-cases, inl, inr,
}
use kxco_post_quantum.Value.{Value, u8, text}
use kxco_post_quantum.Codec.Hex.{bytes_to_hex}
use kxco_post_quantum.Codec.Hex.Laws.{hex_to_bytes-bytes_to_hex}
use kxco_post_quantum.Context.{Options, normalize_context}
use kxco_post_quantum.Signature.{
  Setup, to_bytes, signature_bytes, sign_bytes, sign_message, sign, verify_bytes, verify_message,
  verify,
}

-- Two backends agree: what the one signs with a secret key, the other accepts under the public
-- key, for the same message and context. Signatures are bytes.
pub record Interoperable (signer verifier : Setup) (secret_key public_key : Bytes) : Type 0 where
  pub accepts :
      (message : Bytes) (context : Option Bytes) (signature : Bytes)
      → sign_bytes signer secret_key message context ≡ some signature
      → verify_bytes verifier public_key message signature context ≡ some true
  pub signs_bytes :
      (message : Bytes) (context : Option Bytes) (signature : Bytes)
      → sign_bytes signer secret_key message context ≡ some signature
      → All IsByte signature

signature_bytes-hex :
    (signature : Bytes)
    → All IsByte signature
    → signature_bytes (text (bytes_to_hex signature)) ≡ some signature
unfolding signature_bytes
signature_bytes-hex signature h = rw (hex_to_bytes-bytes_to_hex signature h)

verify_message_read :
    (m : Setup) (public_key : Bytes) (message s t : Value) (context : Option Bytes)
    → signature_bytes s ≡ signature_bytes t
    → verify_message m public_key message s context ≡ verify_message m public_key message t context
unfolding verify_message
verify_message_read m public_key message s t context e = ground arith

-- A signature of bytes may be given as such or as its hex: `verify` does the same.
pub verify_hex :
    (m : Setup) (public_key : Bytes) (message : Value) (signature : Bytes) (opts : Options)
    → All IsByte signature
    → verify m public_key message (text (bytes_to_hex signature)) opts
      ≡ verify m public_key message (u8 signature) opts
unfolding verify
verify_hex m public_key message signature opts h = elim (Result-cases (normalize_context opts)) [
  | inl (context, read) ↦ rw (read, verify) (ap ok (same context))
  | inr (e, refused) ↦ rw (refused, verify)
]
  where
    read_same : signature_bytes (text (bytes_to_hex signature)) ≡ signature_bytes (u8 signature)
    read_same = rw (signature_bytes-hex signature h) (unfold signature_bytes in refl)

    same :
        (context : Option Bytes)
        → verify_message m public_key message (text (bytes_to_hex signature)) context
          ≡ verify_message m public_key message (u8 signature) context
    same context = verify_message_read m public_key message _ _ context read_same

accepted :
    (m : Setup) (public_key : Bytes) (message signature : Value) (context : Option Bytes)
    (msg sig : Bytes)
    → to_bytes message ≡ some msg
    → signature_bytes signature ≡ some sig
    → verify_bytes m public_key msg sig context ≡ some true
    → verify_message m public_key message signature context ≡ true
unfolding verify_message
accepted m public_key message signature context msg sig p q r = ground arith

-- A signature that is returned is the hex of what the backend signed for the message's bytes.
pub sign_message-eq-ok :
    (m : Setup) (secret_key : Bytes) (message : Value) (context : Option Bytes) (hex : Text)
    → sign_message m secret_key message context ≡ ok hex
    → (msg : Bytes) × (sig : Bytes) × (to_bytes message ≡ some msg)
      × (sign_bytes m secret_key msg context ≡ some sig)
      × (bytes_to_hex sig ≡ hex)
unfolding sign_message
sign_message-eq-ok m secret_key message context hex h = elim (Option-cases (to_bytes message)) [
  | inl refused ↦ cc (rw (refused, sign_message) at h)
  | inr (msg, read) ↦ elim (Option-cases (sign_bytes m secret_key msg context)) [
    | inl failed ↦ cc (rw (read, sign_message, failed) at h)
    | inr (sig, signed) ↦ (msg, sig, read, signed, ground arith)
  ]
]

verify_message-sign_message :
    (signer verifier : Setup) (secret_key public_key : Bytes) (message : Value)
    (context : Option Bytes) (hex : Text)
    → Interoperable signer verifier secret_key public_key
    → sign_message signer secret_key message context ≡ ok hex
    → verify_message verifier public_key message (text hex) context ≡ true
verify_message-sign_message signer verifier secret_key public_key message context hex inter h =
    let (msg, sig, read, signed, written) =
      sign_message-eq-ok signer secret_key message context hex h in
    accepted verifier public_key message (text hex) context msg sig read
      (ap (λ s. signature_bytes (text s)) (sym written)
        ∙ signature_bytes-hex sig (inter.signs_bytes msg context sig signed))
      (inter.accepts msg context sig signed)

-- If the backend that verifies accepts, for this key pair, the raw signatures that the backend that
-- signs makes, and these are bytes, then the hex that `sign` returns makes `verify` return true, with
-- the same message and options, on any two choices of backend.
pub verify-sign :
    (signer verifier : Setup) (secret_key public_key : Bytes) (message : Value) (opts : Options)
    (hex : Text)
    → Interoperable signer verifier secret_key public_key
    → sign signer secret_key message opts ≡ ok hex
    → verify verifier public_key message (text hex) opts ≡ ok true
unfolding sign verify
verify-sign signer verifier secret_key public_key message opts hex inter h =
    elim (Result-cases (normalize_context opts)) [
      | inl (context, read) ↦
          rw (read, verify)
            (ap ok (
              verify_message-sign_message signer verifier secret_key public_key message context hex
                inter (rw (read, sign) at h)))
      | inr (e, refused) ↦ cc (rw (refused, sign) at h)
    ]
