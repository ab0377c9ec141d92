-- ===== src/Jws.antt =====
-- src/jws.js: the table of algorithms, and the parts that signing and verifying share.
pub mod Segments
pub mod Sign
pub mod Verify
pub mod Index
pub mod Header
pub mod Signed
pub mod RoundTrip
pub mod Empty
use kxco_post_quantum.Prelude.{
  ℕ, Bool, List, [], ◌∷◌, Option, none, some, ◌==◌, if◌then◌else◌, Text, codes, text_eq,
}
use kxco_post_quantum.Json.{Json, string}
use kxco_post_quantum.Signature.{Setup}

pub data JwsAlgorithm : Type 0 where
  ml_dsa_65 ml_dsa_87 : JwsAlgorithm

pub record JwsSpec : Type 0 where
  pub name : Text
  pub public_key_bytes : ℕ
  pub secret_key_bytes : ℕ
  pub signature_bytes : ℕ

-- `ALGORITHMS`
abbrev pub jws_spec : JwsAlgorithm → JwsSpec
jws_spec ml_dsa_65 = record {
  name = codes "ML-DSA-65";
  public_key_bytes = 1952;
  secret_key_bytes = 4032;
  signature_bytes = 3309;
}
jws_spec ml_dsa_87 = record {
  name = codes "ML-DSA-87";
  public_key_bytes = 2592;
  secret_key_bytes = 4896;
  signature_bytes = 4627;
}

-- `JWS_ALGORITHMS`
abbrev pub jws_algorithms : List JwsAlgorithm
jws_algorithms = ml_dsa_65 ∷ ml_dsa_87 ∷ []

-- The modules that src/jws.js imports.
pub record JwsModules : Type 0 where
  pub setup_65 : Setup
  pub setup_87 : Setup

abbrev pub setup_of : JwsModules → JwsAlgorithm → Setup
setup_of m ml_dsa_65 = m.setup_65
setup_of m ml_dsa_87 = m.setup_87

-- `find`, which gives the first that passes.
abbrev pub find_algorithm : (JwsAlgorithm → Bool) → List JwsAlgorithm → Option JwsAlgorithm
find_algorithm p [] = none
find_algorithm p (a ∷ as') = if p a then some a else find_algorithm p as'

-- `algorithmFor`
unfoldable pub algorithm_for : Text → Option JwsAlgorithm
algorithm_for alg = find_algorithm (λ a. text_eq (jws_spec a).name alg) jws_algorithms

-- `algorithmFor(header.alg)`: only a string names an algorithm.
unfoldable pub algorithm_for_member : Option Json → Option JwsAlgorithm
unfolding algorithm_for
algorithm_for_member (some (string alg)) = algorithm_for alg
algorithm_for_member _ = none

-- `algorithmForSecretKey`, by the length of the key.
unfoldable pub algorithm_for_secret_key : ℕ → Option JwsAlgorithm
algorithm_for_secret_key size =
    find_algorithm (λ a. (jws_spec a).secret_key_bytes == size) jws_algorithms
