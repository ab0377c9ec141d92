-- ===== src/Seed/Jwk/RoundTrip.antt =====
-- Export and import of a JWK: the round trip, and what an import that succeeds has checked.
use kxco_post_quantum.Prelude.{
  ◌≡◌, refl, ◌∙◌, ◌≢◌, Bool, true, false, Option, none, some, ◌==◌, ==_refl, length, All, Text,
  Bytes, IsByte, codes, ok, err, Bool-cases, inl, inr, if◌then◌else◌, require, required,
  ok-injective, >>=-eq-ok, ==_iff, ◌⊎◌, ◌>>◌,
}
use kxco_post_quantum.Value.{Value, u8, text, undefined, as_bytes, is_nullish, is_text}
use kxco_post_quantum.Codec.Base64.{Runtime, BufferLaws, b64url}
use kxco_post_quantum.Codec.Base64.RoundTrip.{from_b64url-b64url}
use kxco_post_quantum.Codec.Equal.{bytes_equal, bytes_equal_iff, bytes_equal_refl}
use kxco_post_quantum.Seed.Params.{ParamSet, params, inconsistent_jwk, unsupported_kty, params_for}
use kxco_post_quantum.Seed.Keys.{Keygen}
use kxco_post_quantum.Seed.Keys.Laws.{params_for_name, seed_ne_secret}
use kxco_post_quantum.Seed.Jwk.{
  Jwk, JwkOptions, JwkArgument, Imported, public_only, full, export_jwk, export_priv, import_jwk,
  import_private, from_b64url_value, if_truthy,
}

-- The members of an exported JWK, handed to `importJwk`.
abbrev pub optional : Option Text → Value
optional none = undefined
optional (some s) = text s

abbrev pub as_argument : Jwk → JwkArgument
as_argument j = record {
  kty = text j.kty;
  alg = text j.alg;
  pub_ = text j.pub_;
  priv = optional j.priv;
}

module _ (rt : Runtime) (laws : BufferLaws rt) where
  read_back : (bs : Bytes) → All IsByte bs → from_b64url_value rt (text (b64url rt bs)) ≡ ok bs
  unfolding from_b64url_value
  read_back bs h = rw (from_b64url-b64url rt bs laws h)

  -- The JWK that `exportJwk` writes for a public key and a seed.
  abbrev pub private_jwk : ParamSet → Bytes → Bytes → JwkOptions → Jwk
  private_jwk a public_key seed opts = record {
    kty = codes "AKP";
    alg = (params a).name;
    pub_ = b64url rt public_key;
    priv = some (b64url rt seed);
    kid = if_truthy opts.kid;
    use_ = if_truthy opts.use_;
  }

  export_jwk_private :
      (a : ParamSet) (public_key seed : Bytes) (opts : JwkOptions)
      → length public_key ≡ (params a).public_key_bytes
      → length seed ≡ (params a).seed_bytes
      → export_jwk rt
          (text (params a).name)
          (some (record { public_key = u8 public_key; seed = u8 seed }))
          opts
        ≡ ok (private_jwk a public_key seed opts)
  unfolding export_jwk export_priv as_bytes
  export_jwk_private a public_key seed opts hp hs =
      rw
        (
          params_for_name a,
          hp,
          ==_refl (params a).public_key_bytes,
          seed_ne_secret a (length seed) hs,
          hs,
          ==_refl (params a).seed_bytes,
        )
        refl

  pub import_jwk_private :
      (keygen : Keygen) (a : ParamSet) (public_key seed : Bytes) (opts : JwkOptions)
      → length public_key ≡ (params a).public_key_bytes
      → length seed ≡ (params a).seed_bytes
      → All IsByte public_key
      → All IsByte seed
      → import_jwk rt keygen (some (as_argument (private_jwk a public_key seed opts))) ≡ (
          if bytes_equal (keygen a seed).public_key public_key
          then ok (full a (keygen a seed).public_key (keygen a seed).secret_key seed)
          else err inconsistent_jwk)
  unfolding import_jwk import_private
  import_jwk_private keygen a public_key seed opts hp hs bp bs =
      rw
        (
          params_for_name a,
          read_back public_key bp,
          hp,
          ==_refl (params a).public_key_bytes,
          read_back seed bs,
          hs,
          ==_refl (params a).seed_bytes,
        )
        (decided (bytes_equal (keygen a seed).public_key public_key))
    where
      decided :
          (b : Bool)
          → (require b inconsistent_jwk
              >> ok (full a (keygen a seed).public_key (keygen a seed).secret_key seed))
            ≡ (if b
                then ok (full a (keygen a seed).public_key (keygen a seed).secret_key seed)
                else err inconsistent_jwk)
      decided true = refl
      decided false = refl

-- Where key generation gives a public key of the set's length, made of bytes, exporting a seed of
-- the set's length with its own public key succeeds, and the import of the JWK gives the key pair
-- that the seed expands to, with the seed.
pub import_jwk-export_jwk :
    (rt : Runtime) (keygen : Keygen) (a : ParamSet) (seed : Bytes) (opts : JwkOptions)
    → BufferLaws rt
    → length (keygen a seed).public_key ≡ (params a).public_key_bytes
    → length seed ≡ (params a).seed_bytes
    → All IsByte (keygen a seed).public_key
    → All IsByte seed
    → (j : Jwk) × (export_jwk rt
          (text (params a).name)
          (some (record { public_key = u8 (keygen a seed).public_key; seed = u8 seed }))
          opts
        ≡ ok j)
      × (import_jwk rt keygen (some (as_argument j))
          ≡ ok (full a (keygen a seed).public_key (keygen a seed).secret_key seed))
import_jwk-export_jwk rt keygen a seed opts laws hp hs bp bs = (
  private_jwk rt laws a (keygen a seed).public_key seed opts,
  export_jwk_private rt laws a (keygen a seed).public_key seed opts hp hs,
  import_jwk_private rt laws keygen a (keygen a seed).public_key seed opts hp hs bp bs
      ∙ rw (bytes_equal_refl (keygen a seed).public_key) refl,
)

-- Exporting a seed of the set's length with a public key of the right length that is not its own
-- still succeeds, and the import of the JWK is refused as inconsistent.
pub import_jwk-export_jwk_mismatch :
    (rt : Runtime) (keygen : Keygen) (a : ParamSet) (public_key seed : Bytes) (opts : JwkOptions)
    → BufferLaws rt
    → length public_key ≡ (params a).public_key_bytes
    → length seed ≡ (params a).seed_bytes
    → All IsByte public_key
    → All IsByte seed
    → (keygen a seed).public_key ≢ public_key
    → (j : Jwk) × (export_jwk rt
          (text (params a).name)
          (some (record { public_key = u8 public_key; seed = u8 seed }))
          opts
        ≡ ok j)
      × (import_jwk rt keygen (some (as_argument j)) ≡ err inconsistent_jwk)
import_jwk-export_jwk_mismatch rt keygen a public_key seed opts laws hp hs bp bs differ = (
  private_jwk rt laws a public_key seed opts,
  export_jwk_private rt laws a public_key seed opts hp hs,
  import_jwk_private rt laws keygen a public_key seed opts hp hs bp bs ∙ rw unequal refl,
)
  where
    unequal : bytes_equal (keygen a seed).public_key public_key ≡ false
    unequal = elim (Bool-cases (bytes_equal (keygen a seed).public_key public_key)) [
      | inl e ↦ absurd (differ ((bytes_equal_iff _ _).0 e))
      | inr e ↦ e
    ]

abbrev Expanded : Runtime → Keygen → ParamSet → Bytes → Value → Imported → Type 0
Expanded rt keygen p public_key priv (public_only q pk) = (p ≡ q) × (public_key ≡ pk)
Expanded rt keygen p public_key priv (full q pk sk seed) =
    (p ≡ q)
    × (from_b64url_value rt priv ≡ ok seed)
    × (length seed ≡ (params p).seed_bytes)
    × (pk ≡ public_key)
    × (pk ≡ (keygen p seed).public_key)
    × (sk ≡ (keygen p seed).secret_key)

import_private_sound :
    (rt : Runtime) (keygen : Keygen) (p : ParamSet) (public_key : Bytes) (priv : Value)
    (i : Imported)
    → import_private rt keygen p public_key priv ≡ ok i
    → Expanded rt keygen p public_key priv i
unfolding import_private
import_private_sound rt keygen p public_key priv i h =
    let (seed, read, h') = >>=-eq-ok (from_b64url_value rt priv) _ h in
    let (_, sized, h'') = >>=-eq-ok (require (length seed == (params p).seed_bytes) _) _ h' in
    let (_, same, done) =
      >>=-eq-ok (require (bytes_equal (keygen p seed).public_key public_key) _) _ h'' in
    rw (← ok-injective done) (
      refl,
      read,
      (==_iff _ _).0 (required _ _ sized),
      (bytes_equal_iff _ _).0 (required _ _ same),
      refl,
      refl,
    )

-- Whatever the object and the key generation, an import that returns a secret key has expanded
-- the seed that `priv` encodes, the seed has its length, and the expanded public key is the one
-- that `pub` encodes.
pub import_jwk_sound :
    (rt : Runtime) (keygen : Keygen) (j : JwkArgument) (p : ParamSet) (pk sk seed : Bytes)
    → import_jwk rt keygen (some j) ≡ ok (full p pk sk seed)
    → (from_b64url_value rt j.pub_ ≡ ok pk)
      × (from_b64url_value rt j.priv ≡ ok seed)
      × (length seed ≡ (params p).seed_bytes)
      × (length pk ≡ (params p).public_key_bytes)
      × (pk ≡ (keygen p seed).public_key)
      × (sk ≡ (keygen p seed).secret_key)
unfolding import_jwk
import_jwk_sound rt keygen j p pk sk seed h =
    let (_, _, h1) = >>=-eq-ok (require (is_text (codes "AKP") j.kty) unsupported_kty) _ h in
    let (a, _, h2) = >>=-eq-ok (params_for j.alg) _ h1 in
    let (public_key, read, h3) = >>=-eq-ok (from_b64url_value rt j.pub_) _ h2 in
    let (_, sized, h4) =
      >>=-eq-ok (require (length public_key == (params a).public_key_bytes) _) _ h3 in
    finish a public_key read ((==_iff _ _).0 (required _ _ sized)) (Bool-cases (is_nullish j.priv))
      h4
  where
    finish :
        (a : ParamSet) (public_key : Bytes)
        → from_b64url_value rt j.pub_ ≡ ok public_key
        → length public_key ≡ (params a).public_key_bytes
        → (is_nullish j.priv ≡ true) ⊎ (is_nullish j.priv ≡ false)
        → (if is_nullish j.priv
            then ok (public_only a public_key)
            else import_private rt keygen a public_key j.priv)
          ≡ ok (full p pk sk seed)
        → (from_b64url_value rt j.pub_ ≡ ok pk)
          × (from_b64url_value rt j.priv ≡ ok seed)
          × (length seed ≡ (params p).seed_bytes)
          × (length pk ≡ (params p).public_key_bytes)
          × (pk ≡ (keygen p seed).public_key)
          × (sk ≡ (keygen p seed).secret_key)
    finish a public_key read sized (inl absent) e = cc (rw absent at e)
    finish a public_key read sized (inr present) e =
        let (same, s, n, pub_same, pub_own, sec_own) =
          import_private_sound rt keygen a public_key j.priv _ (rw present at e) in
        rw (← same, pub_same) (read, s, n, sized, rw (← pub_same) pub_own, sec_own)
