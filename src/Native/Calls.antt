-- ===== src/Native/Calls.antt =====
-- The object `native` of src/_native.node.js and its methods.
use kxco_post_quantum.Prelude.{
  Bool, true, false, ◌&&◌, ◌||◌, List, [], ◌∷◌, Option, none, some, if◌then◌else◌, Text, Bytes,
  Result, ok, err,
}
use kxco_post_quantum.Native.{
  Kind, sig, kem, Crypto, Spec, probe, get_spec, private_key_object, public_key_object,
}
use kxco_post_quantum.Native.OperatorPin.{Pin, javascript}

pub data Thrown : Type 0 where
  thrown : Thrown

abbrev pub or_throw {ℓ} : {A : Type ℓ} → Option A → Result Thrown A
or_throw none = err thrown
or_throw (some a) = ok a

-- `native` where it is not null: the probed table, whether a context is honoured, and whether
-- `Buffer` is in scope.
pub record Native : Type 0 where
  pub crypto : Crypto
  pub supported : List Spec
  pub honours_context : Bool
  pub has_buffer : Bool

abbrev pub is_pinned_to_javascript : Option Pin → Bool
is_pinned_to_javascript (some javascript) = true
is_pinned_to_javascript _ = false

abbrev pub is_empty : List Spec → Bool
is_empty [] = true
is_empty (s ∷ ss) = false

-- `(PIN === 'javascript' || SUPPORTED.size === 0) ? null : { ... }`
unfoldable pub native : Option Pin → Crypto → (honours_context has_buffer : Bool) → Option Native
unfolding probe
native pin c honours_context has_buffer =
    if is_pinned_to_javascript pin || is_empty (probe c)
    then none
    else some (record {
      crypto = c;
      supported = probe c;
      honours_context = honours_context;
      has_buffer = has_buffer;
    })

abbrev pub is_some {ℓ} : {A : Type ℓ} → Option A → Bool
is_some none = false
is_some (some a) = true

unfoldable pub supports : Native → Text → Bool
unfolding get_spec
supports n alg = n.has_buffer && is_some (get_spec alg n.supported)

-- Each method answers null (`none`) for a set that the table lacks.
unfoldable pub sign :
    Native → Text → Bytes → Bytes → Option Bytes → Option Bytes → Result Thrown (Option Bytes)
unfolding get_spec private_key_object
sign n alg secret_key message public_key context = elim (get_spec alg n.supported) [
  | none ↦ ok none
  | some spec ↦
      elim (n.crypto.sign (private_key_object spec secret_key public_key) message context) [
        | none ↦ err thrown
        | some signed ↦ ok (some signed)
      ]
]

-- A throw of OpenSSL is a failed verification.
unfoldable pub verify : Native → Text → Bytes → Bytes → Bytes → Option Bytes → Option Bool
unfolding get_spec public_key_object
verify n alg public_key message signature context = elim (get_spec alg n.supported) [
  | none ↦ none
  | some spec ↦
      elim (n.crypto.verify (public_key_object spec public_key) message context signature) [
        | none ↦ some false
        | some b ↦ some b
      ]
]

abbrev pub is_kem : Kind → Bool
is_kem kem = true
is_kem sig = false

pub record Encapsulated : Type 0 where
  pub cipher_text : Bytes
  pub shared_secret : Bytes

unfoldable pub encapsulate : Native → Bytes → Text → Bytes → Result Thrown (Option Encapsulated)
unfolding get_spec public_key_object
encapsulate n random alg public_key = elim (get_spec alg n.supported) [
  | none ↦ ok none
  | some spec ↦
      if is_kem spec.entry.kind
      then elim (n.crypto.encapsulate random (public_key_object spec public_key)) [
        | none ↦ err thrown
        | some (cipher_text, shared_secret) ↦
            ok (some (record { cipher_text = cipher_text; shared_secret = shared_secret }))
      ]
      else ok none
]

unfoldable pub decapsulate : Native → Text → Bytes → Bytes → Result Thrown (Option Bytes)
unfolding get_spec private_key_object
decapsulate n alg cipher_text secret_key = elim (get_spec alg n.supported) [
  | none ↦ ok none
  | some spec ↦
      if is_kem spec.entry.kind
      then elim (n.crypto.decapsulate (private_key_object spec secret_key none) cipher_text) [
        | none ↦ err thrown
        | some secret ↦ ok (some secret)
      ]
      else ok none
]
