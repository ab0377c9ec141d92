-- ===== src/Seed/Params.antt =====
-- The table `PARAMS` of src/seed.js, and `paramsFor`.
use kxco_post_quantum.Prelude.{
  ℕ, Bool, List, [], ◌∷◌, ◌++◌, Option, none, some, if◌then◌else◌, Text, Bytes, codes, text_eq,
  Result, err, require_some,
}
use kxco_post_quantum.Value.{Value, text}

pub data ParamSet : Type 0 where
  ml_dsa_65 ml_dsa_87 ml_kem_768 ml_kem_1024 : ParamSet

pub data Kind : Type 0 where
  sig kem : Kind

-- `impl` is `@noble/post-quantum`, which the functions below take as an argument.
pub record Params : Type 0 where
  pub name : Text
  pub kind : Kind
  pub seed_bytes : ℕ
  pub public_key_bytes : ℕ
  pub secret_key_bytes : ℕ
  pub oid : Bytes
  pub info : Text

abbrev pub nist_arc : Bytes
nist_arc = 0x60 ∷ 0x86 ∷ 0x48 ∷ 0x01 ∷ 0x65 ∷ 0x03 ∷ 0x04 ∷ []

abbrev pub params : ParamSet → Params
params ml_dsa_65 = record {
  name = codes "ML-DSA-65";
  kind = sig;
  seed_bytes = 32;
  public_key_bytes = 1952;
  secret_key_bytes = 4032;
  oid = nist_arc ++ 0x03 ∷ 0x12 ∷ [];
  info = codes "ml-dsa-65-v1";
}
params ml_dsa_87 = record {
  name = codes "ML-DSA-87";
  kind = sig;
  seed_bytes = 32;
  public_key_bytes = 2592;
  secret_key_bytes = 4896;
  oid = nist_arc ++ 0x03 ∷ 0x13 ∷ [];
  info = codes "ml-dsa-87-v1";
}
params ml_kem_768 = record {
  name = codes "ML-KEM-768";
  kind = kem;
  seed_bytes = 64;
  public_key_bytes = 1184;
  secret_key_bytes = 2400;
  oid = nist_arc ++ 0x04 ∷ 0x02 ∷ [];
  info = codes "ml-kem-768-v1";
}
params ml_kem_1024 = record {
  name = codes "ML-KEM-1024";
  kind = kem;
  seed_bytes = 64;
  public_key_bytes = 1568;
  secret_key_bytes = 3168;
  oid = nist_arc ++ 0x04 ∷ 0x03 ∷ [];
  info = codes "ml-kem-1024-v1";
}

-- `SEED_ALGORITHMS`, in the order of the table.
abbrev pub seed_algorithms : List ParamSet
seed_algorithms = ml_dsa_65 ∷ ml_dsa_87 ∷ ml_kem_768 ∷ ml_kem_1024 ∷ []

-- The first entry that passes the test, as `Array.prototype.find` has it.
abbrev pub find : (ParamSet → Bool) → List ParamSet → Option ParamSet
find p [] = none
find p (a ∷ as') = if p a then some a else find p as'

-- Each error that src/seed.js throws. `native_type_error` is the one that the runtime throws
-- where the code reads a method of `undefined`.
pub data SeedError : Type 0 where
  unsupported_algorithm : SeedError
  not_a_byte_array : SeedError
  wrong_seed_length : ℕ → SeedError
  wrong_public_key_length : ℕ → SeedError
  expanded_secret_key : SeedError
  not_a_key_object : SeedError
  not_a_jwk : SeedError
  unsupported_kty : SeedError
  not_base64url_text : SeedError
  bad_base64 : SeedError
  inconsistent_jwk : SeedError
  expected_tag : ℕ → ℕ → SeedError
  unsupported_length_encoding : SeedError
  unrecognised_oid : SeedError
  expanded_form : SeedError
  unexpected_private_key_tag : ℕ → SeedError
  native_type_error : SeedError

-- `paramsFor`: an own key of the table, given as a string.
unfoldable pub params_for : Value → Result SeedError ParamSet
params_for (text alg) =
    require_some (find (λ a. text_eq (params a).name alg) seed_algorithms) unsupported_algorithm
params_for _ = err unsupported_algorithm
