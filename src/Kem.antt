-- ===== src/Kem.antt =====
-- src/ml-kem.js and src/ml-kem-1024.js: key encapsulation over two backends.
pub mod RoundTrip
use kxco_post_quantum.Prelude.{Option, none, some, Text, Bytes, codes, Result, ok, err}
use kxco_post_quantum.Native.Calls.{Native, supports, Encapsulated, Thrown, thrown, or_throw}
use kxco_post_quantum.Native.Calls
use kxco_post_quantum.Prelude.{if◌then◌else◌}

-- The JavaScript backend; the random bytes that it draws are an argument.
pub record KemPrimitives : Type 0 where
  pub encapsulate : (random public_key : Bytes) → Option Encapsulated
  pub decapsulate : (cipher_text secret_key : Bytes) → Option Bytes

pub record KemSetup : Type 0 where
  pub native_alg : Text
  pub js : KemPrimitives
  pub native : Option Native

unfoldable pub uses_native : KemSetup → Option Native
unfolding supports
uses_native m = elim m.native [
  | none ↦ none
  | some n ↦ if supports n m.native_alg then some n else none
]

-- What the caller gets: the ciphertext under both spellings.
pub record Sealed : Type 0 where
  pub ciphertext : Bytes
  pub cipher_text : Bytes
  pub shared_secret : Bytes

abbrev pub both_spellings : Encapsulated → Sealed
both_spellings r = record {
  ciphertext = r.cipher_text;
  cipher_text = r.cipher_text;
  shared_secret = r.shared_secret;
}

-- A null of the native call is a member read of null, which throws.
abbrev pub or_null_throws {ℓ} : {A : Type ℓ} → Result Thrown (Option A) → Result Thrown A
or_null_throws (ok none) = err thrown
or_null_throws (ok (some a)) = ok a
or_null_throws (err e) = err e

unfoldable pub encapsulate_raw : KemSetup → Bytes → Bytes → Result Thrown Encapsulated
unfolding uses_native Calls.encapsulate
encapsulate_raw m random public_key = elim (uses_native m) [
  | none ↦ or_throw (m.js.encapsulate random public_key)
  | some n ↦ or_null_throws (Calls.encapsulate n random m.native_alg public_key)
]

unfoldable pub encapsulate : KemSetup → Bytes → Bytes → Result Thrown Sealed
unfolding encapsulate_raw
encapsulate m random public_key = elim (encapsulate_raw m random public_key) [
  | ok r ↦ ok (both_spellings r)
  | err e ↦ err e
]

unfoldable pub decapsulate : KemSetup → Bytes → Bytes → Result Thrown Bytes
unfolding uses_native Calls.decapsulate
decapsulate m cipher_text secret_key = elim (uses_native m) [
  | none ↦ or_throw (m.js.decapsulate cipher_text secret_key)
  | some n ↦ or_null_throws (Calls.decapsulate n m.native_alg cipher_text secret_key)
]

module _ (js : KemPrimitives) (native : Option Native) where
  abbrev pub ml_kem_768 : KemSetup
  ml_kem_768 = record { native_alg = codes "ML-KEM-768"; js = js; native = native }

  abbrev pub ml_kem_1024 : KemSetup
  ml_kem_1024 = record { native_alg = codes "ML-KEM-1024"; js = js; native = native }
