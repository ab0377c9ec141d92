-- ===== src/Fips/Services/Random.antt =====
-- `random` of src/fips/module.js: bytes of the generator, reseeded when its interval is over.
pub mod Laws
use kxco_post_quantum.Prelude.{
  ℕ, Bool, List, [], Option, none, some, if◌then◌else◌, Bytes, Result, ok, err,
}
use kxco_post_quantum.Fips.Entropy.{get_entropy}
use kxco_post_quantum.Fips.Drbg.{Hmac512, Drbg, DrbgError, reseed, generate, reseed_required}
use kxco_post_quantum.Fips.Services.{
  World, M, Outcome, value, throw, FipsError, fatal, drbg_failed, ◌>>=◌, ◌>>◌, return, fail,
}

abbrev pub with_reseeded : Result DrbgError Drbg → List Bytes → M (Unit {0})
with_reseeded (err e) device w = (throw (fatal drbg_failed), record w { device = device })
with_reseeded (ok d) device w = (value tt, record { drbg = d; device = device })

abbrev pub with_entropy : Hmac512 → Option Bytes → List Bytes → M (Unit {0})
with_entropy hmac none device w = (throw (fatal drbg_failed), record w { device = device })
with_entropy hmac (some bytes) device w = with_reseeded (reseed hmac bytes [] w.drbg) device w

-- Any error in it is fatal. A read of the device that fails has still used what it read.
unfoldable pub reseed_world : Hmac512 → M (Unit {0})
reseed_world hmac w =
    let (entropy, device) = get_entropy 48 w.device in with_entropy hmac entropy device w

abbrev pub with_generated : Result DrbgError (Bytes × Drbg) → M Bytes
with_generated (err e) w = (throw (fatal drbg_failed), w)
with_generated (ok (out, d)) w = (value out, record w { drbg = d })

unfoldable pub generate_world : Hmac512 → ℕ → M Bytes
generate_world hmac n w = with_generated (generate hmac n [] w.drbg) w

unfoldable pub random : Hmac512 → ℕ → M Bytes
random hmac n w =
    (if reseed_required w.drbg
        then reseed_world hmac >> generate_world hmac n
        else generate_world hmac n)
      w
