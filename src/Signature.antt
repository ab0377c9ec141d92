-- ===== src/Signature.antt =====
-- src/ml-dsa.js, src/ml-dsa-87.js and src/slh-dsa.js: one wrapper over two backends, three times.
-- The JavaScript backend, `@noble/post-quantum`, is the parameter `Primitives`.
pub mod Laws
pub mod Backend
pub mod Sets
use kxco_post_quantum.Prelude.{
  ℕ, Bool, true, false, not, ◌&&◌, ◌||◌, List, Option, none, some, if◌then◌else◌, Text, Bytes,
  codes, Result, ok, err, ◌>>=◌,
}
use kxco_post_quantum.Value.{Value, u8, text}
use kxco_post_quantum.Codec.Hex.{bytes_to_hex, hex_to_bytes}
use kxco_post_quantum.Codec.Utf8.{utf8}
use kxco_post_quantum.Context.{Options, ContextError, normalize_context}
use kxco_post_quantum.Native.Calls.{Native, supports, is_some}
use kxco_post_quantum.Native.Calls

-- `none` is a call that throws. The arguments stand in the wrapper's order.
pub record Primitives : Type 0 where
  pub sign : (secret_key message : Bytes) → Option Bytes → Option Bytes
  pub verify : (public_key message signature : Bytes) → Option Bytes → Option Bool

-- A module: its parameter set by name, and what it imports.
pub record Setup : Type 0 where
  pub native_alg : Text
  pub js : Primitives
  pub native : Option Native

pub data SignError : Type 0 where
  context_error : ContextError → SignError
  expected_bytes_or_string backend_failed : SignError

-- `toBytes`
unfoldable pub to_bytes : Value → Option Bytes
to_bytes (u8 bs) = some bs
to_bytes (text s) = some (utf8 s)
to_bytes _ = none

abbrev pub ok_or_none {ε} : {E : Type ε} → Result E Bytes → Option Bytes
ok_or_none (ok bs) = some bs
ok_or_none (err e) = none

-- `signatureBytes`: raw bytes as they are, hex read, anything else refused.
unfoldable pub signature_bytes : Value → Option Bytes
signature_bytes (u8 bs) = some bs
signature_bytes (text s) = ok_or_none (hex_to_bytes s)
signature_bytes _ = none

-- `usesNative`
unfoldable pub uses_native : Setup → Option Bytes → Option Native
uses_native m context = elim m.native [
  | none ↦ none
  | some n ↦
      if supports n m.native_alg && (not (is_some context) || n.honours_context)
      then some n
      else none
]

-- What the chosen backend signs; a null of `native.sign` makes `bytesToHex` throw.
unfoldable pub sign_bytes : Setup → Bytes → Bytes → Option Bytes → Option Bytes
sign_bytes m secret_key message context = elim (uses_native m context) [
  | none ↦ m.js.sign secret_key message context
  | some n ↦ elim (Calls.sign n m.native_alg secret_key message none context) [
    | ok signed ↦ signed
    | err e ↦ none
  ]
]

unfoldable pub sign_message : Setup → Bytes → Value → Option Bytes → Result SignError Text
sign_message m secret_key message context = elim (to_bytes message) [
  | none ↦ err expected_bytes_or_string
  | some msg ↦ elim (sign_bytes m secret_key msg context) [
    | none ↦ err backend_failed
    | some signed ↦ ok (bytes_to_hex signed)
  ]
]

unfoldable pub sign : Setup → Bytes → Value → Options → Result SignError Text
sign m secret_key message opts = elim (normalize_context opts) [
  | err e ↦ err (context_error e)
  | ok context ↦ sign_message m secret_key message context
]

-- What the chosen backend answers: `none` is a throw, which `verify` catches. `native.verify`
-- answers null for a set that it lacks, which is no `true`.
unfoldable pub verify_bytes : Setup → Bytes → Bytes → Bytes → Option Bytes → Option Bool
verify_bytes m public_key message signature context = elim (uses_native m context) [
  | none ↦ m.js.verify public_key message signature context
  | some n ↦ Calls.verify n m.native_alg public_key message signature context
]

abbrev pub or_false : Option Bool → Bool
or_false none = false
or_false (some b) = b

-- The `try` block of `verify`, with its handler.
unfoldable pub verify_message : Setup → Bytes → Value → Value → Option Bytes → Bool
verify_message m public_key message signature context = elim (to_bytes message) [
  | none ↦ false
  | some msg ↦ elim (signature_bytes signature) [
    | none ↦ false
    | some sig ↦ or_false (verify_bytes m public_key msg sig context)
  ]
]

unfoldable pub verify : Setup → Bytes → Value → Value → Options → Result ContextError Bool
verify m public_key message signature opts = elim (normalize_context opts) [
  | err e ↦ err e
  | ok context ↦ ok (verify_message m public_key message signature context)
]
