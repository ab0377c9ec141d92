-- ===== src/Fips/Services.antt =====
-- src/fips/module.js: the services. A service is a state transformer over the generator and the
-- entropy device, and its result or the error that it throws. The vendored ML-KEM and ML-DSA are
-- the parameter `Algorithms`; a call of them that throws gives `none`.
pub mod Random
pub mod Calls
pub mod Keeps
pub mod Pairwise
use kxco_post_quantum.Prelude.{
  ℕ, Bool, true, false, List, [], ◌∷◌, Option, none, some, ltb, ◌==◌, if◌then◌else◌, length, Text,
  Bytes, codes, text_eq,
}
use kxco_post_quantum.Value.{Value, u8, text, undefined}
use kxco_post_quantum.Codec.Utf8.{utf8}
use kxco_post_quantum.Context.{Options, absent, bare_value, options}
use kxco_post_quantum.Fips.Drbg.{Drbg, Hmac512}

pub data KemSet : Type 0 where
  ml_kem_768 ml_kem_1024 : KemSet

pub data DsaSet : Type 0 where
  ml_dsa_65 ml_dsa_87 : DsaSet

pub data Set : Type 0 where
  kem : KemSet → Set
  dsa : DsaSet → Set

pub record KeyPair : Type 0 where
  pub public_key : Bytes
  pub secret_key : Bytes

pub record Encapsulated : Type 0 where
  pub cipher_text : Bytes
  pub shared_secret : Bytes

pub record Algorithms : Type 0 where
  pub hmac512 : Hmac512
  pub kem_keygen : KemSet → Bytes → KeyPair
  pub kem_encapsulate : KemSet → (public_key m : Bytes) → Option Encapsulated
  pub kem_decapsulate : KemSet → (cipher_text secret_key : Bytes) → Option Bytes
  pub dsa_keygen : DsaSet → Bytes → KeyPair
  pub dsa_sign : DsaSet → (message secret_key context rnd : Bytes) → Option Bytes
  pub dsa_verify : DsaSet → (signature message public_key context : Bytes) → Option Bool

-- Why a FipsFatalError is thrown, and the other errors, which leave the module running.
pub data Fatal : Type 0 where
  drbg_instantiation_failed drbg_failed kem_pct_failed dsa_pct_failed self_test_failed : Fatal

pub data Usage : Type 0 where
  not_offered not_bytes bad_options context_too_long wrong_seed_length algorithm_threw : Usage

pub data FipsError : Type 0 where
  fatal : Fatal → FipsError
  usage : Usage → FipsError

pub data Outcome {ℓ} (A : Type ℓ) : Type ℓ where
  value : A → Outcome A
  throw : FipsError → Outcome A

-- The generator, and what the entropy device will give to each read.
pub record World : Type 0 where
  pub drbg : Drbg
  pub device : List Bytes

abbrev pub M {ℓ} : Type ℓ → Type ℓ
M A = World → Outcome A × World

abbrev pub proceed {ℓ κ} : {A : Type ℓ} {B : Type κ} → (A → M B) → Outcome A → M B
proceed f (value a) w = f a w
proceed f (throw e) w = (throw e, w)

infixl 5 ◌>>=◌ ◌>>◌
unfoldable pub ◌>>=◌ {ℓ κ} : {A : Type ℓ} {B : Type κ} → M A → (A → M B) → M B
◌>>=◌ m f w = proceed f (m w).0 (m w).1

abbrev pub ◌>>◌ {ℓ} : {B : Type ℓ} → M (Unit {0}) → M B → M B
m >> k = m >>= λ _. k

abbrev pub return {ℓ} : {A : Type ℓ} → A → M A
return a w = (value a, w)

abbrev pub fail {ℓ} : {A : Type ℓ} → FipsError → M A
fail e w = (throw e, w)

abbrev pub ensure : Bool → FipsError → M (Unit {0})
ensure b e = if b then return tt else fail e

abbrev pub some_or {ℓ} : {A : Type ℓ} → Option A → FipsError → M A
some_or none e = fail e
some_or (some a) e = return a

-- `KEM` and `DSA`, by their names. `kemOf` and `dsaOf` accept an own key given as a string.
unfoldable pub kem_of : Value → Option KemSet
kem_of (text alg) =
    if text_eq alg (codes "ML-KEM-768")
    then some ml_kem_768
    else if text_eq alg (codes "ML-KEM-1024")
    then some ml_kem_1024
    else none
kem_of _ = none

unfoldable pub dsa_of : Value → Option DsaSet
dsa_of (text alg) =
    if text_eq alg (codes "ML-DSA-65")
    then some ml_dsa_65
    else if text_eq alg (codes "ML-DSA-87")
    then some ml_dsa_87
    else none
dsa_of _ = none

-- `ALGORITHMS.includes(alg)` and which of the two tables has it.
unfoldable pub set_of : Value → Option Set
set_of alg = elim (kem_of alg) [
  | some k ↦ some (kem k)
  | none ↦ elim (dsa_of alg) [ some d ↦ some (dsa d) | none ↦ none ]
]

-- `toBytes` and `requireBytes`
unfoldable pub to_bytes : Value → Option Bytes
to_bytes (u8 bs) = some bs
to_bytes (text s) = some (utf8 s)
to_bytes _ = none

abbrev pub require_bytes : Value → Option Bytes
require_bytes (u8 bs) = some bs
require_bytes _ = none

abbrev pub limit : Option Bytes → Outcome Bytes
limit none = throw (usage not_bytes)
limit (some ctx) = if ltb 255 (length ctx) then throw (usage context_too_long) else value ctx

-- `contextOf`, for `opts` undefined, null or no object, or an object with a `context`. (An array
-- is an object with none.) Null counts as a bare value here, `absent` as undefined.
unfoldable pub context_of : Options → Outcome Bytes
context_of absent = value []
context_of bare_value = throw (usage bad_options)
context_of (options undefined) = value []
context_of (options v) = limit (to_bytes v)
