-- ===== src/Fips/SelfTest.antt =====
-- src/fips/selftest.js: the known-answer tests. The vendored algorithms are parameters, and so are the
-- known answers, which src/fips/kat.js holds and a script generates.
use kxco_post_quantum.Prelude.{
  ℕ, Bool, false, ◌&&◌, List, [], ◌∷◌, ◌++◌, Option, none, some, length, take, Text, Bytes, text_eq,
  Result, ok, err, require, require_some, ◌>>=◌, ◌>>◌,
}
use kxco_post_quantum.Codec.Hex.{bytes_to_hex, parse_pairs}
use kxco_post_quantum.Fips.Drbg.{Drbg, DrbgError, instantiate, reseed, generate}
use kxco_post_quantum.Fips.Services.{Algorithms, ml_kem_1024, ml_dsa_87}

-- The tests by their names.
pub data Test : Type 0 where
  sha256_test ml_dsa_verification sha512_test hmac_test drbg_test : Test
  kem_key_generation kem_encapsulation kem_decapsulation implicit_rejection : Test
  dsa_key_generation dsa_signature_generation : Test

-- A test that fails, or a call that throws.
pub data TestError : Type 0 where
  test_failed : Test → TestError
  threw : TestError

-- Hex throughout.
pub record HashKat : Type 0 where
  pub msg : Text
  pub md : Text

pub record HmacKat : Type 0 where
  pub key : Text
  pub msg : Text
  pub mac : Text

pub data DrbgStep : Type 0 where
  use_reseed : (entropy_input additional_input : Text) → DrbgStep
  use_generate : (additional_input : Text) → DrbgStep

pub record DrbgKat : Type 0 where
  pub entropy_input : Text
  pub nonce : Text
  pub personalization : Text
  pub steps : List DrbgStep
  pub returned_bytes : ℕ
  pub returned_sha256 : Text

pub record KemKat : Type 0 where
  pub d : Text
  pub z : Text
  pub ek_sha256 : Text
  pub dk_sha256 : Text
  pub ek : Text
  pub m : Text
  pub c_sha256 : Text
  pub k : Text

pub record DecapsKat : Type 0 where
  pub c : Text
  pub dk : Text
  pub k : Text

pub record DsaKat : Type 0 where
  pub seed : Text
  pub pk_sha256 : Text
  pub sk_sha256 : Text
  pub message : Text
  pub sk : Text
  pub context : Text
  pub rnd : Text
  pub signature_sha256 : Text

pub record DsaVerifyKat : Type 0 where
  pub signature : Text
  pub message : Text
  pub pk : Text
  pub context : Text

-- `KAT`
pub record Kat : Type 0 where
  pub sha256 : HashKat
  pub sha512 : HashKat
  pub hmac_sha512 : HmacKat
  pub hmac_drbg : DrbgKat
  pub ml_kem : KemKat
  pub ml_kem_decaps : DecapsKat
  pub ml_kem_reject : DecapsKat
  pub ml_dsa : DsaKat
  pub ml_dsa_verify : DsaVerifyKat

-- What the file imports.
pub record Vendored : Type 0 where
  pub sha256 : Bytes → Bytes
  pub sha512 : Bytes → Bytes
  pub algorithms : Algorithms

-- `bytes`, on hex digits.
abbrev pub bytes : Text → Bytes
bytes hex = parse_pairs hex

-- `check`
abbrev pub check : Test → Bool → Result TestError (Unit {0})
check name good = require good (test_failed name)

abbrev pub is_hex_of : Bytes → Text → Bool
is_hex_of bs hex = text_eq (bytes_to_hex bs) hex

abbrev pub or_threw {ℓ} : {A : Type ℓ} → Result DrbgError A → Result TestError A
or_threw (ok a) = ok a
or_threw (err e) = err threw

module _ (v : Vendored) (kat : Kat) where
  -- `digest(u8) === hex`
  abbrev pub has_digest : Bytes → Text → Bool
  has_digest bs hex = is_hex_of (v.sha256 bs) hex

  -- `castSha256`
  unfoldable pub cast_sha256 : Result TestError (Unit {0})
  cast_sha256 = check sha256_test (is_hex_of (v.sha256 (bytes kat.sha256.msg)) kat.sha256.md)

  -- `castMlDsaVerify`
  unfoldable pub cast_ml_dsa_verify : Result TestError (Unit {0})
  cast_ml_dsa_verify = do
    let t = kat.ml_dsa_verify
    good ←
        require_some
          (v.algorithms.dsa_verify ml_dsa_87 (bytes t.signature) (bytes t.message) (bytes t.pk)
            (bytes t.context))
          threw
    check ml_dsa_verification good

  -- `castSha512`
  unfoldable pub cast_sha512 : Result TestError (Unit {0})
  cast_sha512 = check sha512_test (is_hex_of (v.sha512 (bytes kat.sha512.msg)) kat.sha512.md)

  -- `castHmac`: the known answer may be cut short.
  unfoldable pub cast_hmac : Result TestError (Unit {0})
  cast_hmac =
      let t = kat.hmac_sha512 in
      let mac = bytes_to_hex (v.algorithms.hmac512 (bytes t.key) (bytes t.msg)) in
      check hmac_test (text_eq (take (length t.mac) mac) t.mac)

  -- The loop over the steps; `out` is what was generated last.
  unfoldable pub drbg_steps :
      List DrbgStep → Option Bytes → Drbg → Result TestError (Option Bytes × Drbg)
  drbg_steps [] out drbg = ok (out, drbg)
  drbg_steps (use_reseed entropy additional ∷ steps) out drbg = do
    drbg ← or_threw (reseed v.algorithms.hmac512 (bytes entropy) (bytes additional) drbg)
    drbg_steps steps out drbg
  drbg_steps (use_generate additional ∷ steps) out drbg = do
    (given, drbg) ←
        or_threw
          (generate v.algorithms.hmac512 kat.hmac_drbg.returned_bytes (bytes additional) drbg)
    drbg_steps steps (some given) drbg

  abbrev pub right_output : Option Bytes → Bool
  right_output none = false
  right_output (some out) = has_digest out kat.hmac_drbg.returned_sha256

  -- `castDrbg`
  unfoldable pub cast_drbg : Result TestError (Unit {0})
  cast_drbg = do
    let t = kat.hmac_drbg
    drbg ← or_threw (
        instantiate v.algorithms.hmac512 (bytes t.entropy_input) (bytes t.nonce)
          (bytes t.personalization))
    (out, drbg) ← drbg_steps t.steps none drbg
    check drbg_test (right_output out)

  -- `castMlKem`
  unfoldable pub cast_ml_kem : Result TestError (Unit {0})
  cast_ml_kem = do
    let g = kat.ml_kem
    let key = v.algorithms.kem_keygen ml_kem_1024 (bytes g.d ++ bytes g.z)
    check kem_key_generation
        (has_digest key.public_key g.ek_sha256 && has_digest key.secret_key g.dk_sha256)
    r ← require_some (v.algorithms.kem_encapsulate ml_kem_1024 (bytes g.ek) (bytes g.m)) threw
    check kem_encapsulation (has_digest r.cipher_text g.c_sha256 && is_hex_of r.shared_secret g.k)
    let d = kat.ml_kem_decaps
    k1 ← require_some (v.algorithms.kem_decapsulate ml_kem_1024 (bytes d.c) (bytes d.dk)) threw
    check kem_decapsulation (is_hex_of k1 d.k)
    let j = kat.ml_kem_reject
    k2 ← require_some (v.algorithms.kem_decapsulate ml_kem_1024 (bytes j.c) (bytes j.dk)) threw
    check implicit_rejection (is_hex_of k2 j.k)

  -- `castMlDsa`
  unfoldable pub cast_ml_dsa : Result TestError (Unit {0})
  cast_ml_dsa = do
    let g = kat.ml_dsa
    let key = v.algorithms.dsa_keygen ml_dsa_87 (bytes g.seed)
    check dsa_key_generation
        (has_digest key.public_key g.pk_sha256 && has_digest key.secret_key g.sk_sha256)
    sig ←
        require_some
          (v.algorithms.dsa_sign ml_dsa_87 (bytes g.message) (bytes g.sk) (bytes g.context)
            (bytes g.rnd))
          threw
    check dsa_signature_generation (has_digest sig g.signature_sha256)

  -- `runIntegrityCasts`
  unfoldable pub run_integrity_casts : Result TestError (Unit {0})
  run_integrity_casts = do cast_sha256; cast_ml_dsa_verify

  -- `runAlgorithmCasts`
  unfoldable pub run_algorithm_casts : Result TestError (Unit {0})
  run_algorithm_casts = do cast_sha512; cast_hmac; cast_drbg; cast_ml_kem; cast_ml_dsa
