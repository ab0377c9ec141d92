-- ===== src/Native.antt =====
-- src/_native.node.js: the primitives of OpenSSL behind the shape that the package calls.
-- `node:crypto` is the parameter `Crypto`.
pub mod Encoding
pub mod OperatorPin
pub mod Calls
pub mod Laws
use kxco_post_quantum.Prelude.{
  ℕ, ◌+◌, ◌/◌, String, Bool, true, false, not, ◌&&◌, List, [], ◌∷◌, ◌++◌, Option, none, some, ◌==◌,
  ltb, if◌then◌else◌, length, drop, Text, Bytes, codes, text_eq,
}
use kxco_post_quantum.Native.Encoding.{algorithm_identifier, to_pkcs8, to_spki}

pub data Kind : Type 0 where
  sig kem : Kind

pub data PrivateForm : Type 0 where
  pkcs8 jwk : PrivateForm

pub record Entry : Type 0 where
  pub name : Text
  pub node_name : Text
  pub kind : Kind
  pub private_form : PrivateForm

abbrev entry : String → String → Kind → PrivateForm → Entry
entry name node_name kind form = record {
  name = codes name;
  node_name = codes node_name;
  kind = kind;
  private_form = form;
}

-- `ALGORITHMS`
abbrev pub algorithms : List Entry
algorithms =
    entry "ML-DSA-44" "ml-dsa-44" sig pkcs8
    ∷ entry "ML-DSA-65" "ml-dsa-65" sig pkcs8
    ∷ entry "ML-DSA-87" "ml-dsa-87" sig pkcs8
    ∷ entry "ML-KEM-512" "ml-kem-512" kem pkcs8
    ∷ entry "ML-KEM-768" "ml-kem-768" kem pkcs8
    ∷ entry "ML-KEM-1024" "ml-kem-1024" kem pkcs8
    ∷ entry "SLH-DSA-SHA2-128f" "slh-dsa-sha2-128f" sig jwk
    ∷ entry "SLH-DSA-SHA2-192s" "slh-dsa-sha2-192s" sig jwk
    ∷ entry "SLH-DSA-SHAKE-256f" "slh-dsa-shake-256f" sig jwk
    ∷ []

-- The keys that are handed to OpenSSL: a PKCS#8 encoding, or a JWK with its members before
-- base64url; and an SPKI encoding.
pub data PrivateKey : Type 0 where
  pkcs8_key : Bytes → PrivateKey
  jwk_key : (alg : Text) → (public_part private_part : Bytes) → PrivateKey

pub data PublicKey : Type 0 where
  spki_key : Bytes → PublicKey

-- `none` is a call that throws. `generate` gives the PKCS#8 export of a new key of the named
-- type, `generate_pair` the two key objects of one, and `imports_jwk` says whether the JWK of a new key
-- is taken back. The random bytes of `generate_pair` and `encapsulate` are an argument.
pub record Crypto : Type 0 where
  pub generate : Text → Option Bytes
  pub generate_pair : Bytes → Text → Option (PrivateKey × PublicKey)
  pub imports_jwk : Text → Bool
  pub sign : PrivateKey → Bytes → Option Bytes → Option Bytes
  pub verify : PublicKey → Bytes → Option Bytes → Bytes → Option Bool
  pub encapsulate : Bytes → PublicKey → Option (Bytes × Bytes)
  pub decapsulate : PrivateKey → Bytes → Option Bytes

-- A row of the table that `probe` builds.
pub record Spec : Type 0 where
  pub entry : Entry
  pub algid : Bytes

is_jwk : PrivateForm → Bool
is_jwk jwk = true
is_jwk pkcs8 = false

-- One round of the loop of `probe`: a set whose key cannot be made, or whose JWK is refused, is
-- left out.
unfoldable pub probe_entry : Crypto → Entry → Option Spec
unfolding is_jwk algorithm_identifier
probe_entry c e = elim (c.generate e.node_name) [
  | none ↦ none
  | some exported ↦
      if is_jwk e.private_form && not (c.imports_jwk e.name)
      then none
      else some (record { entry = e; algid = algorithm_identifier exported })
]

abbrev pub cons_some {ℓ} : {A : Type ℓ} → Option A → List A → List A
cons_some none xs = xs
cons_some (some x) xs = x ∷ xs

unfoldable pub probe_all : Crypto → List Entry → List Spec
unfolding probe_entry
probe_all c [] = []
probe_all c (e ∷ es) = cons_some (probe_entry c e) (probe_all c es)

-- `SUPPORTED`
unfoldable pub probe : Crypto → List Spec
unfolding probe_all
probe c = probe_all c algorithms

-- `SUPPORTED.get(alg)`
unfoldable pub get_spec : Text → List Spec → Option Spec
get_spec alg [] = none
get_spec alg (s ∷ ss) = if text_eq s.entry.name alg then some s else get_spec alg ss

-- `secretKey.subarray(secretKey.length / 2)`
abbrev back_half : Bytes → Bytes
back_half bs = drop (length bs / 2) bs

unfoldable pub private_key_object : Spec → Bytes → Option Bytes → PrivateKey
unfolding to_pkcs8
private_key_object spec secret_key public_key = elim spec.entry.private_form [
  | pkcs8 ↦ pkcs8_key (to_pkcs8 spec.algid secret_key)
  | jwk ↦
      jwk_key spec.entry.name (elim public_key [ none ↦ back_half secret_key | some p ↦ p ])
        secret_key
]

unfoldable pub public_key_object : Spec → Bytes → PublicKey
unfolding to_spki
public_key_object spec public_key = spki_key (to_spki spec.algid public_key)

-- `v === b` for a verdict; a throw is caught, and the answer is no.
abbrev pub is_verdict : Bool → Option Bool → Bool
is_verdict true (some v) = v
is_verdict false (some v) = not v
is_verdict b none = false

-- What `probeContext` makes of the key pair.
unfoldable pub probe_pair : Crypto → PrivateKey → PublicKey → Bool
probe_pair c private_key public_key =
    let message : Bytes = codes "kxco-pq context probe" in
    elim (c.sign private_key message (some (codes "a"))) [
      | none ↦ false
      | some signed ↦
          is_verdict true (c.verify public_key message (some (codes "a")) signed)
          && is_verdict false (c.verify public_key message (some (codes "b")) signed)
    ]

-- The `try` of `probeContext`: a context is honoured if the same one verifies and another does not. The
-- random bytes of the key pair are an argument.
unfoldable pub probe_context : Crypto → (random : Bytes) → Bool
unfolding probe get_spec probe_pair
probe_context c random = elim (get_spec (codes "ML-DSA-44") (probe c)) [
  | none ↦ false
  | some spec ↦ elim (c.generate_pair random spec.entry.node_name) [
    | none ↦ false
    | some pair ↦ probe_pair c pair.0 pair.1
  ]
]

-- `probeContext`, with `contextHonoured` before and after: null until the first probe.
unfoldable pub supports_context : Crypto → (random : Bytes) → Option Bool → Bool × Option Bool
unfolding probe_context
supports_context c random (some honoured) = (honoured, some honoured)
supports_context c random none = let honoured = probe_context c random in (honoured, some honoured)
