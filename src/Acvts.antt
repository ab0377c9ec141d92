-- ===== src/Acvts.antt =====
-- conformance/acvts/responders.mjs: the answers to a prompt of the ACVP server, by the JavaScript
-- backend. The prompt is its members that the code reads; one that is missing is `none`. The names of
-- `Object.prototype`, which are no parameter sets, are not told apart from other unknown names.
pub mod Respond
pub mod Laws
pub mod Signed
pub mod OpenSsl
use kxco_post_quantum.Prelude.{
  ℕ, Bool, true, false, [], ◌∷◌, List, Option, none, some, any, if◌then◌else◌, map, Text, Bytes,
  codes, text_eq,
}

-- A test case: hexadecimal texts, the context among them, and the name of a hash.
pub record TestCase : Type 0 where
  pub tc_id : ℕ
  pub hex_of : Text → Option Text
  pub hash_alg : Option Text

pub record Group : Type 0 where
  pub tg_id : ℕ
  pub parameter_set : Text
  pub kind : Option Text
  pub signature_interface : Option Text
  pub pre_hash : Option Text
  pub hash_alg : Option Text
  pub external_mu : Bool
  pub deterministic : Option Bool
  pub tests : List TestCase

-- The mode is a member too, and so are the four that are handed back.
pub record Prompt : Type 0 where
  pub algorithm : Text
  pub mode : Text
  pub vs_id : ℕ
  pub revision : Text
  pub is_sample : Bool
  pub groups : List Group

-- The options of a signer: `extraEntropy` is bytes or false, and only signing has it.
pub record SignerOptions : Type 0 where
  pub external_mu : Option Bool
  pub context : Option Bytes

pub record Signer : Type 0 where
  pub sign : (message secret_key : Bytes) → SignerOptions → Option Bytes → Option Bytes
  pub verify : (signature message public_key : Bytes) → SignerOptions → Option Bool

pub record KeyPair : Type 0 where
  pub public_key : Bytes
  pub secret_key : Bytes

-- What the code uses of @noble/post-quantum and of Buffer: `none` is a throw. `prehash` takes the name
-- of the hash.
pub record KemAlgorithm : Type 0 where
  pub keygen : Bytes → Option KeyPair
  pub encapsulate : (public_key : Bytes) → Option Bytes → Option (Bytes × Bytes)
  pub decapsulate : (ciphertext secret_key : Bytes) → Option Bytes
  pub ciphertext_bytes : ℕ

pub record SignatureAlgorithm : Type 0 where
  pub keygen : Bytes → Option KeyPair
  pub signer : Signer
  pub internal : Option Signer
  pub prehash : Text → Option Signer

pub record Library : Type 0 where
  pub kem : Text → KemAlgorithm
  pub dsa : Text → SignatureAlgorithm
  pub slh : Text → SignatureAlgorithm
  pub from_hex : Text → Bytes

abbrev pub kem_names : List Text
kem_names = codes "ML-KEM-512" ∷ codes "ML-KEM-768" ∷ codes "ML-KEM-1024" ∷ []

abbrev pub dsa_names : List Text
dsa_names = codes "ML-DSA-44" ∷ codes "ML-DSA-65" ∷ codes "ML-DSA-87" ∷ []

abbrev pub slh_names : List Text
slh_names =
    codes "SLH-DSA-SHA2-128s"
    ∷ codes "SLH-DSA-SHA2-128f"
    ∷ codes "SLH-DSA-SHA2-192s"
    ∷ codes "SLH-DSA-SHA2-192f"
    ∷ codes "SLH-DSA-SHA2-256s"
    ∷ codes "SLH-DSA-SHA2-256f"
    ∷ codes "SLH-DSA-SHAKE-128s"
    ∷ codes "SLH-DSA-SHAKE-128f"
    ∷ codes "SLH-DSA-SHAKE-192s"
    ∷ codes "SLH-DSA-SHAKE-192f"
    ∷ codes "SLH-DSA-SHAKE-256s"
    ∷ codes "SLH-DSA-SHAKE-256f"
    ∷ []

abbrev pub hash_names : List Text
hash_names =
    codes "SHA2-224"
    ∷ codes "SHA2-256"
    ∷ codes "SHA2-384"
    ∷ codes "SHA2-512"
    ∷ codes "SHA2-512/224"
    ∷ codes "SHA2-512/256"
    ∷ codes "SHA3-224"
    ∷ codes "SHA3-256"
    ∷ codes "SHA3-384"
    ∷ codes "SHA3-512"
    ∷ codes "SHAKE-128"
    ∷ codes "SHAKE-256"
    ∷ []

-- `table[name]`
abbrev pub lookup {ℓ} : {A : Type ℓ} → List Text → (Text → A) → Text → Option A
lookup names impl name = if any (λ n. text_eq n name) names then some (impl name) else none

-- `g.x === 'text'`
abbrev pub is_member : Option Text → Text → Bool
is_member none s = false
is_member (some t) s = text_eq t s
