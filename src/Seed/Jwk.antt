-- ===== src/Seed/Jwk.antt =====
-- `exportJwk` and `importJwk` of src/seed.js (RFC 9964 AKP keys). An object that a caller hands
-- over is a record of the members that the code reads, `none` where it is no object.
pub mod RoundTrip
use kxco_post_quantum.Prelude.{
  ℕ, Bool, false, List, [], ◌∷◌, Option, none, some, ◌==◌, if◌then◌else◌, length, Text, Bytes,
  codes, text_eq, Result, ok, err, require, require_some, ◌>>=◌, ◌>>◌,
}
use kxco_post_quantum.Value.{Value, text, is_nullish, is_text}
use kxco_post_quantum.Codec.Base64.{Runtime, b64url, from_b64url}
use kxco_post_quantum.Codec.Equal.{bytes_equal}
use kxco_post_quantum.Seed.Params.{
  ParamSet, Params, params, SeedError, wrong_seed_length, wrong_public_key_length,
  expanded_secret_key, not_a_key_object, not_a_jwk, unsupported_kty, not_base64url_text, bad_base64,
  inconsistent_jwk, params_for,
}
use kxco_post_quantum.Seed.Pkcs8.{bytes_of}
use kxco_post_quantum.Seed.Keys.{KeyPair, Keygen}

pub record Jwk : Type 0 where
  pub kty : Text
  pub alg : Text
  pub pub_ : Text
  pub priv : Option Text
  pub kid : Option Text
  pub use_ : Option Text

-- `{ publicKey, seed }`; a member that is missing is `undefined`.
pub record KeyArgument : Type 0 where
  pub public_key : Value
  pub seed : Value

-- `{ kid, use }`, each a string where given.
pub record JwkOptions : Type 0 where
  pub kid : Option Text
  pub use_ : Option Text

-- `if (opts.kid) jwk.kid = opts.kid`: the empty string is left out.
abbrev pub if_truthy : Option Text → Option Text
if_truthy none = none
if_truthy (some []) = none
if_truthy (some (c ∷ s)) = some (c ∷ s)

-- `jwk.priv`, from `key.seed`.
unfoldable pub export_priv : Runtime → ParamSet → Value → Result SeedError (Option Text)
export_priv rt p seed = if is_nullish seed then ok none else do
  bytes ← bytes_of seed
  (if length bytes == (params p).secret_key_bytes then err expanded_secret_key else ok tt)
  require (length bytes == (params p).seed_bytes) (wrong_seed_length (length bytes))
  ok (some (b64url rt bytes))

unfoldable pub export_jwk : Runtime → Value → Option KeyArgument → JwkOptions → Result SeedError Jwk
export_jwk rt alg key opts = do
  p ← params_for alg
  key ← require_some key not_a_key_object
  public_key ← bytes_of key.public_key
  require (length public_key == (params p).public_key_bytes)
      (wrong_public_key_length (length public_key))
  priv ← export_priv rt p key.seed
  ok (record {
    kty = codes "AKP";
    alg = (params p).name;
    pub_ = b64url rt public_key;
    priv = priv;
    kid = if_truthy opts.kid;
    use_ = if_truthy opts.use_;
  })

pub record JwkArgument : Type 0 where
  pub kty : Value
  pub alg : Value
  pub pub_ : Value
  pub priv : Value

-- What `importJwk` returns: a public key alone, or the keys that the seed expands to.
pub data Imported : Type 0 where
  public_only : ParamSet → Bytes → Imported
  full : ParamSet → (public_key secret_key seed : Bytes) → Imported

-- `fromB64url` of a value that may be no string.
unfoldable pub from_b64url_value : Runtime → Value → Result SeedError Bytes
from_b64url_value rt (text s) = require_some (from_b64url rt s) bad_base64
from_b64url_value rt _ = err not_base64url_text

-- From `jwk.priv` on: the seed is expanded, and the expansion must give `pub`.
unfoldable pub import_private :
    Runtime → Keygen → ParamSet → Bytes → Value → Result SeedError Imported
import_private rt keygen p public_key priv = do
  seed ← from_b64url_value rt priv
  require (length seed == (params p).seed_bytes) (wrong_seed_length (length seed))
  let expanded = keygen p seed
  require (bytes_equal expanded.public_key public_key) inconsistent_jwk
  ok (full p expanded.public_key expanded.secret_key seed)

unfoldable pub import_jwk : Runtime → Keygen → Option JwkArgument → Result SeedError Imported
import_jwk rt keygen jwk = do
  jwk ← require_some jwk not_a_jwk
  require (is_text (codes "AKP") jwk.kty) unsupported_kty
  p ← params_for jwk.alg
  public_key ← from_b64url_value rt jwk.pub_
  require (length public_key == (params p).public_key_bytes)
      (wrong_public_key_length (length public_key))
  if is_nullish jwk.priv
      then ok (public_only p public_key)
      else import_private rt keygen p public_key jwk.priv
