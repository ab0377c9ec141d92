-- ===== src/Fips/Drbg.antt =====
-- src/fips/drbg.js: HMAC_DRBG with SHA-512. HMAC-SHA-512 is the parameter `hmac`.
pub mod Invariant
pub mod Output
use kxco_post_quantum.Prelude.{
  ℕ, zero, suc, ◌+◌, ◌-◌, ◌^◌, ◌≡◌, Bool, true, false, not, ◌||◌, List, [], ◌∷◌, ◌++◌, Option, none,
  some, min, ltb, ◌==◌, if◌then◌else◌, length, take, replicate, Bytes, Result, ok, err, require,
  ◌>>=◌, ◌>>◌,
}

abbrev pub outlen : ℕ
outlen = 64

abbrev pub max_bytes_per_request : ℕ
max_bytes_per_request = 65536

abbrev pub reseed_interval : ℕ
reseed_interval = 2 ^ 20

abbrev pub min_entropy_bytes : ℕ
min_entropy_bytes = 32

abbrev pub min_nonce_bytes : ℕ
min_nonce_bytes = 16

abbrev pub Hmac512 : Type 0
Hmac512 = (key message : Bytes) → Bytes

-- `#K` and `#V`, which are null and set together.
pub record Keys : Type 0 where
  pub k : Bytes
  pub v : Bytes

pub record Drbg : Type 0 where
  pub keys : Option Keys
  pub counter : ℕ

pub data DrbgError : Type 0 where
  low_entropy short_nonce not_instantiated length_out_of_range reseed_is_required : DrbgError

abbrev pub fresh : Drbg
fresh = record { keys = none; counter = 0 }

module _ (hmac : Hmac512) where
  -- `#step`
  unfoldable pub step : ℕ → Bytes → Keys → Keys
  step byte provided s =
      let k' = hmac s.k (s.v ++ byte ∷ provided) in record { k = k'; v = hmac k' s.v }

  -- `#update`
  unfoldable pub update : Bytes → Keys → Keys
  update provided s =
      if length provided == 0
      then step 0x00 provided s
      else step 0x01 provided (step 0x00 provided s)

  unfoldable pub instantiate : (entropy nonce personalization : Bytes) → Result DrbgError Drbg
  instantiate entropy nonce personalization = do
    require (not (ltb (length entropy) min_entropy_bytes)) low_entropy
    require (not (ltb (length nonce) min_nonce_bytes)) short_nonce
    let start : Keys = record { k = replicate outlen 0x00; v = replicate outlen 0x01 }
    ok (record { keys = some (update (entropy ++ nonce ++ personalization) start); counter = 1 })

  -- `#requireInstantiated`
  abbrev pub require_instantiated : Drbg → Result DrbgError Keys
  require_instantiated d = elim d.keys [ none ↦ err not_instantiated | some s ↦ ok s ]

  unfoldable pub reseed : (entropy additional : Bytes) → Drbg → Result DrbgError Drbg
  reseed entropy additional d = do
    s ← require_instantiated d
    require (not (ltb (length entropy) min_entropy_bytes)) low_entropy
    ok (record { keys = some (update (entropy ++ additional) s); counter = 1 })

  -- The loop `while (filled < bytes)`, by rounds: `bytes` of them are more than enough.
  unfoldable pub output_loop : (rounds bytes : ℕ) → (out k v : Bytes) → Bytes × Bytes
  output_loop zero bytes out k v = (out, v)
  output_loop (suc rounds) bytes out k v =
      let v' = hmac k v in
      let more = output_loop rounds bytes (out ++ take (min outlen (bytes - length out)) v') k v' in
      if ltb (length out) bytes then more else (out, v)

  -- `if (additionalInput.length > 0) this.#update(additionalInput)`
  abbrev pub update_if_given : Bytes → Keys → Keys
  update_if_given additional s = if ltb 0 (length additional) then update additional s else s

  unfoldable pub generate : ℕ → Bytes → Drbg → Result DrbgError (Bytes × Drbg)
  generate bytes additional d = do
    s ← require_instantiated d
    require (not (ltb bytes 1 || ltb max_bytes_per_request bytes)) length_out_of_range
    require (not (ltb reseed_interval d.counter)) reseed_is_required
    let s1 = update_if_given additional s
    let (out, v) = output_loop bytes bytes [] s1.k s1.v
    ok (
      out,
      record { keys = some (update additional (record s1 { v = v })); counter = d.counter + 1 },
    )

-- `get reseedRequired`
unfoldable pub reseed_required : Drbg → Bool
reseed_required d = ltb reseed_interval d.counter

-- The arrays are overwritten with zeros before they are dropped.
unfoldable pub uninstantiate : Drbg → Drbg
uninstantiate d = record { keys = none; counter = 0 }
