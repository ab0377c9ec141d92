-- ===== src/Tests/Seeds.antt =====
-- The theorems on src/seed.js at concrete inputs.
use kxco_post_quantum.Prelude.{
  ℕ, ◌+◌, ◌≡◌, ◌∙◌, ap, ◌≢◌, refl, [], ◌∷◌, ◌++◌, none, some, length, length-replicate, take,
  replicate, All, Bytes, IsByte, arith, ok, err,
}
use kxco_post_quantum.Value.{Value, u8, text}
use kxco_post_quantum.Codec.Base64.{b64url}
use kxco_post_quantum.Codec.Equal.{bytes_equal_refl}
use kxco_post_quantum.Seed.Params.{ml_dsa_65, params, inconsistent_jwk}
use kxco_post_quantum.Seed.Pkcs8.{export_seed_pkcs8, import_seed_pkcs8}
use kxco_post_quantum.Seed.Pkcs8.RoundTrip.{import-export, import-export_cut}
use kxco_post_quantum.Seed.Jwk.{Jwk, JwkOptions, full, export_jwk, import_jwk, from_b64url_value}
use kxco_post_quantum.Seed.Jwk.RoundTrip.{
  as_argument, private_jwk, import_jwk_private, import_jwk-export_jwk,
  import_jwk-export_jwk_mismatch, import_jwk_sound,
}
use kxco_post_quantum.Tests.Samples.{
  replicate-IsByte, seed32, seed32-IsByte, node, node-BufferLaws, keygen,
}

abbrev name65 : Value
name65 = text (params ml_dsa_65).name

import-export_example :
    (d : Bytes) × (export_seed_pkcs8 name65 (u8 seed32) ≡ ok d)
    × (import_seed_pkcs8 (u8 (d ++ 9 ∷ [])) ≡ ok (record { alg = ml_dsa_65; seed = seed32 }))
import-export_example = import-export ml_dsa_65 seed32 (9 ∷ []) refl seed32-IsByte

import-export_cut_example :
    (d : Bytes) × (export_seed_pkcs8 name65 (u8 seed32) ≡ ok d)
    × (import_seed_pkcs8 (u8 (take (22 + 3) d))
        ≡ ok (record { alg = ml_dsa_65; seed = take 3 seed32 }))
import-export_cut_example = import-export_cut ml_dsa_65 seed32 3 refl seed32-IsByte (omega arith)

abbrev no_options : JwkOptions
no_options = record { kid = none; use_ = none }

abbrev own_key : Bytes
own_key = (keygen ml_dsa_65 seed32).public_key

own_key-IsByte : All IsByte own_key
own_key-IsByte = replicate-IsByte 1952 5 (omega arith)

import_jwk-export_jwk_example :
    (j : Jwk) × (export_jwk node name65
        (some (record { public_key = u8 own_key; seed = u8 seed32 }))
        no_options
      ≡ ok j)
    × (import_jwk node keygen (some (as_argument j))
        ≡ ok (full ml_dsa_65 own_key (keygen ml_dsa_65 seed32).secret_key seed32))
import_jwk-export_jwk_example =
    import_jwk-export_jwk node keygen ml_dsa_65 seed32 no_options node-BufferLaws
      (length-replicate {A = ℕ} 1952 5) refl own_key-IsByte seed32-IsByte

abbrev other_key : Bytes
other_key = replicate 1952 4

abbrev first : Bytes → ℕ
first [] = 0
first (b ∷ bs) = b

import_jwk-export_jwk_mismatch_example :
    (j : Jwk) × (export_jwk node name65
        (some (record { public_key = u8 other_key; seed = u8 seed32 }))
        no_options
      ≡ ok j)
    × (import_jwk node keygen (some (as_argument j)) ≡ err inconsistent_jwk)
import_jwk-export_jwk_mismatch_example =
    import_jwk-export_jwk_mismatch node keygen ml_dsa_65 other_key seed32 no_options node-BufferLaws
      (length-replicate {A = ℕ} 1952 4) refl (replicate-IsByte 1952 4 (omega arith)) seed32-IsByte
      differ
  where
    differ : own_key ≢ other_key
    differ e = omega (arith, ap first e)

abbrev own_jwk : Jwk
own_jwk = private_jwk node node-BufferLaws ml_dsa_65 own_key seed32 no_options

import_jwk_sound_example :
    (from_b64url_value node (text (b64url node own_key)) ≡ ok own_key)
    × (from_b64url_value node (text (b64url node seed32)) ≡ ok seed32)
    × (length seed32 ≡ 32)
    × (length own_key ≡ 1952)
    × (own_key ≡ (keygen ml_dsa_65 seed32).public_key)
    × ((keygen ml_dsa_65 seed32).secret_key ≡ (keygen ml_dsa_65 seed32).secret_key)
import_jwk_sound_example =
    import_jwk_sound node keygen (as_argument own_jwk) ml_dsa_65 own_key
      (keygen ml_dsa_65 seed32).secret_key seed32
      (import_jwk_private node node-BufferLaws keygen ml_dsa_65 own_key seed32 no_options
          (length-replicate {A = ℕ} 1952 5) refl own_key-IsByte seed32-IsByte
        ∙ rw (bytes_equal_refl own_key) refl)
