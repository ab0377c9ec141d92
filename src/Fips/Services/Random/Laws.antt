-- ===== src/Fips/Services/Random/Laws.antt =====
-- When `random` of src/fips/module.js succeeds, and what it gives.
use kxco_post_quantum.Prelude.{
  ℕ, ◌≤◌, ◌≡◌, ◌⊎◌, refl, true, false, ◌||◌, Bool-cases, inl, inr, List, [], Option, none, some,
  Option-cases, ltb, Bytes, arith, length, Result, ok, err, Result-cases,
}
use kxco_post_quantum.Fips.Entropy.{get_entropy, get_entropy-length}
use kxco_post_quantum.Fips.Drbg.{
  Hmac512, Drbg, DrbgError, Keys, reseed, generate, reseed_required, max_bytes_per_request,
  min_entropy_bytes,
}
use kxco_post_quantum.Fips.Drbg.Invariant.{HmacLaws, IsValid, IsValidKeys, reseed-IsValid}
use kxco_post_quantum.Fips.Drbg.Output.{generate-blocks}
use kxco_post_quantum.Fips.Services.{World, Outcome, value, throw, fatal, drbg_failed, ◌>>=◌}
use kxco_post_quantum.Fips.Services.Random.{random, reseed_world, generate_world, with_entropy}

has_keys : (k : Option Keys) (n : ℕ) → IsValidKeys k n → 1 ≤ n → (s : Keys) × (k ≡ some s)
has_keys none n valid low = absurd (omega (arith, valid))
has_keys (some s) n valid low = (s, refl)

not_err {ε ℓ} : {E : Type ε} {A : Type ℓ} {a : A} {e : E} → ◌≡◌ {A = Result E A} (ok a) (err e) → ⊥
not_err p = cc

module _ (hmac : Hmac512) (laws : HmacLaws hmac) where
  generate_ok :
      (n : ℕ) (d : Drbg)
      → IsValid d
      → 1 ≤ d.counter
      → 1 ≤ n
      → n ≤ 65536
      → reseed_required d ≡ false
      → (g : Bytes × Drbg) × (generate hmac n [] d ≡ ok g)
  unfolding generate reseed_required
  generate_ok n d valid low n_low n_high fresh_enough =
      let (s, keyed) = has_keys d.keys d.counter valid low in
      elim (Result-cases (generate hmac n [] d)) [
        | inl (g, p) ↦ (g, p)
        | inr (e, p) ↦ absurd (refute s keyed e p)
      ]
    where
      sized : ltb n 1 || ltb max_bytes_per_request n ≡ false
      sized = ground arith

      refute : (s : Keys) → d.keys ≡ some s → (e : DrbgError) → generate hmac n [] d ≡ err e → ⊥
      refute s keyed e p = not_err (rw (keyed, sized, fresh_enough) at p)

  reseed_ok :
      (entropy : Bytes) (d : Drbg)
      → IsValid d
      → 1 ≤ d.counter
      → length entropy ≡ 48
      → (d' : Drbg) × (reseed hmac entropy [] d ≡ ok d')
  unfolding reseed
  reseed_ok entropy d valid low long =
      let (s, keyed) = has_keys d.keys d.counter valid low in
      elim (Result-cases (reseed hmac entropy [] d)) [
        | inl (d', p) ↦ (d', p)
        | inr (e, p) ↦ absurd (refute s keyed e p)
      ]
    where
      enough : ltb (length entropy) min_entropy_bytes ≡ false
      enough = ground arith

      refute : (s : Keys) → d.keys ≡ some s → (e : DrbgError) → reseed hmac entropy [] d ≡ err e → ⊥
      refute s keyed e p = not_err (rw (keyed, enough) at p)

  abbrev pub Gives : ℕ → Outcome Bytes × World → Type 0
  Gives n o = (out : Bytes) × (o.0 ≡ value out) × (length out ≡ n)

  generate_world_ok :
      (n : ℕ) (w : World)
      → IsValid w.drbg
      → 1 ≤ w.drbg.counter
      → 1 ≤ n
      → n ≤ 65536
      → reseed_required w.drbg ≡ false
      → Gives n (generate_world hmac n w)
  unfolding generate_world
  generate_world_ok n w valid low n_low n_high fresh_enough =
      let ((out, d'), p) = generate_ok n w.drbg valid low n_low n_high fresh_enough in
      let (_, _, _, long) = generate-blocks hmac laws n [] out w.drbg d' p in (out, rw p refl, long)

  after_reseed :
      (d d' : Drbg) (entropy : Bytes)
      → reseed hmac entropy [] d ≡ ok d'
      → reseed_required d' ≡ false
  unfolding reseed_required
  after_reseed d d' entropy p =
      let (_, one) = reseed-IsValid hmac laws entropy [] d d' p in rw one refl

  reseeded_ok :
      (n : ℕ) (w : World) (entropy : Bytes) (device : List Bytes)
      → IsValid w.drbg
      → 1 ≤ w.drbg.counter
      → 1 ≤ n
      → n ≤ 65536
      → length entropy ≡ 48
      → Gives n ((with_entropy hmac (some entropy) device >>= λ _. generate_world hmac n) w)
  unfolding ◌>>=◌
  reseeded_ok n w entropy device valid low n_low n_high long =
      let (d', p) = reseed_ok entropy w.drbg valid low long in
      let (valid', one) = reseed-IsValid hmac laws entropy [] w.drbg d' p in
      rw p (
        generate_world_ok n (record { drbg = d'; device = device }) valid' (omega (arith, one))
          n_low n_high (after_reseed w.drbg d' entropy p))

  -- A request of 1 to 65,536 bytes made of a live generator returns that many bytes, with one
  -- exception: the reseed interval is over and the entropy source fails, which is a fatal error.
  -- So no other error of the generator can come out of it, however many requests came before.
  pub random-total :
      (n : ℕ) (w : World)
      → IsValid w.drbg
      → 1 ≤ w.drbg.counter
      → 1 ≤ n
      → n ≤ 65536
      → Gives n (random hmac n w)
        ⊎ ((reseed_required w.drbg ≡ true)
            × ((get_entropy 48 w.device).0 ≡ none)
            × ((random hmac n w).0 ≡ throw (fatal drbg_failed)))
  unfolding random reseed_world ◌>>=◌
  random-total n w valid low n_low n_high = elim (Bool-cases (reseed_required w.drbg)) [
    | inr e ↦ inl (rw e (generate_world_ok n w valid low n_low n_high e))
    | inl e ↦ elim (Option-cases (get_entropy 48 w.device).0) [
      | inl failed ↦ inr (e, failed, rw (e, failed) refl)
      | inr (entropy, read) ↦ inl (
          rw (e, read)
            (reseeded_ok n w entropy (get_entropy 48 w.device).1 valid low n_low n_high
              (get_entropy-length 48 w.device entropy read)))
    ]
  ]
