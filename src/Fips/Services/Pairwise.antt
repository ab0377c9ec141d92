-- ===== src/Fips/Services/Pairwise.antt =====
-- What a generated key pair has passed, and that its seed gives it again.
use kxco_post_quantum.Prelude.{
  ℕ, ◌≡◌, refl, sym, ap, ◌∙◌, Bool, true, false, Bool-cases, inl, inr, [], Option, none, some,
  Bytes, length, ==_refl, Result, ok, err,
}
use mathlib.Core.Path.{subst}
use kxco_post_quantum.Value.{Value, u8}
use kxco_post_quantum.Fips.Drbg.{Hmac512, Drbg, DrbgError, generate, reseed_required}
use kxco_post_quantum.Fips.Drbg.Invariant.{HmacLaws}
use kxco_post_quantum.Fips.Drbg.Output.{generate-blocks}
use kxco_post_quantum.Fips.Services.{
  World, M, Outcome, value, throw, FipsError, Algorithms, proceed, ◌>>=◌, ensure, some_or, Set, kem,
  dsa, KemSet, DsaSet, KeyPair, set_of, usage, not_offered,
}
use kxco_post_quantum.Fips.Services.Random.{random, generate_world, reseed_world, with_generated}
use kxco_post_quantum.Fips.Services.Calls.{
  NewKey, kem_agrees, dsa_agrees, pct_kem, pct_dsa, generate_for, generate_keypair, expand,
  seed_length, keypair_from_seed,
}

pub bind-value {ℓ κ} :
    {A : Type ℓ} {B : Type κ} (m : M A) (f : A → M B) (w : World) (b : B)
    → ((m >>= f) w).0 ≡ value b
    → (x : A) × ((m w).0 ≡ value x) × ((f x (m w).1).0 ≡ value b)
unfolding ◌>>=◌
bind-value m f w b h = continue (m w).0 (m w).1 h
  where
    continue :
        (o : Outcome _) (w' : World)
        → (proceed f o w').0 ≡ value b
        → (x : _) × (o ≡ value x) × ((f x w').0 ≡ value b)
    continue (value x) w' p = (x, refl, p)
    continue (throw e) w' p = cc

ensured :
    (b : Bool) (e : FipsError) (w : World) (u : Unit {0}) → (ensure b e w).0 ≡ value u → b ≡ true
ensured true e w u h = refl
ensured false e w u h = cc

taken {ℓ} :
    {A : Type ℓ} (o : Option A) (e : FipsError) (w : World) (x : A)
    → (some_or o e w).0 ≡ value x
    → o ≡ some x
taken none e w x h = cc
taken (some y) e w x h = cc

module _ (hmac : Hmac512) (laws : HmacLaws hmac) where
  generate_world-length :
      (n : ℕ) (w : World) (out : Bytes) → (generate_world hmac n w).0 ≡ value out → length out ≡ n
  unfolding generate_world
  generate_world-length n w out h = go (generate hmac n [] w.drbg) refl h
    where
      go :
          (r : Result DrbgError (Bytes × Drbg))
          → generate hmac n [] w.drbg ≡ r
          → (with_generated r w).0 ≡ value out
          → length out ≡ n
      go (ok (out', d)) e p =
          let (_, _, _, long) = generate-blocks hmac laws n [] out' w.drbg d e in same p ∙ long
        where
          same : ◌≡◌ {A = Outcome Bytes} (value out') (value out) → length out ≡ length out'
          same q = cc
      go (err f) e p = cc

  random-length :
      (n : ℕ) (w : World) (out : Bytes) → (random hmac n w).0 ≡ value out → length out ≡ n
  unfolding random
  random-length n w out h = elim (Bool-cases (reseed_required w.drbg)) [
    | inl e ↦
        let (_, _, p) =
          bind-value (reseed_world hmac) (λ _. generate_world hmac n) w out (rw e at h) in
        generate_world-length n _ out p
    | inr e ↦ generate_world-length n w out (rw e at h)
  ]

-- The verdict of the pairwise test with the random bytes `r`.
abbrev pub agrees : Algorithms → Set → KeyPair → Bytes → Bool
agrees a (kem k) keys r = kem_agrees a k keys r
agrees a (dsa d) keys r = dsa_agrees a d keys r

abbrev pub pair_of : NewKey → KeyPair
pair_of key = record { public_key = key.public_key; secret_key = key.secret_key }

abbrev pub Checked : Algorithms → NewKey → Type 0
Checked a key =
    ((r : Bytes) × (agrees a key.alg (pair_of key) r ≡ true))
    × (expand a key.alg key.seed ≡ pair_of key)
    × (length key.seed ≡ seed_length key.alg)

value-injective {ℓ} : {A : Type ℓ} {x y : A} → ◌≡◌ {A = Outcome A} (value x) (value y) → x ≡ y
value-injective h = cc

module _ (a : Algorithms) (laws : HmacLaws a.hmac512) where
  pct_kem-agrees :
      (k : KemSet) (keys : KeyPair) (w : World) (u : Unit {0})
      → (pct_kem a k keys w).0 ≡ value u
      → (r : Bytes) × (kem_agrees a k keys r ≡ true)
  unfolding pct_kem
  pct_kem-agrees k keys w u h =
      let (r, _, p) = bind-value (random a.hmac512 32) _ w u h in (r, ensured _ _ _ u p)

  pct_dsa-agrees :
      (d : DsaSet) (keys : KeyPair) (w : World) (u : Unit {0})
      → (pct_dsa a d keys w).0 ≡ value u
      → (r : Bytes) × (dsa_agrees a d keys r ≡ true)
  unfolding pct_dsa
  pct_dsa-agrees d keys w u h =
      let (r, _, p) = bind-value (random a.hmac512 32) _ w u h in (r, ensured _ _ _ u p)

  generate_for-Checked :
      (s : Set) (w : World) (key : NewKey)
      → (generate_for a s w).0 ≡ value key
      → (key.alg ≡ s) × Checked a key
  unfolding generate_for
  generate_for-Checked (kem k) w key h =
      let (seed, p, h1) = bind-value (random a.hmac512 64) _ w key h in
      let (u, q, h2) = bind-value (pct_kem a k (a.kem_keygen k seed)) _ _ key h1 in
      let tested = pct_kem-agrees k (a.kem_keygen k seed) _ u q in
      subst (λ (x : NewKey). (x.alg ≡ kem k) × Checked a x) (value-injective h2)
        (refl, (tested, refl, random-length a.hmac512 laws 64 w seed p))
  generate_for-Checked (dsa d) w key h =
      let (seed, p, h1) = bind-value (random a.hmac512 32) _ w key h in
      let (u, q, h2) = bind-value (pct_dsa a d (a.dsa_keygen d seed)) _ _ key h1 in
      let tested = pct_dsa-agrees d (a.dsa_keygen d seed) _ u q in
      subst (λ (x : NewKey). (x.alg ≡ dsa d) × Checked a x) (value-injective h2)
        (refl, (tested, refl, random-length a.hmac512 laws 32 w seed p))

  from_its_seed :
      (alg : Value) (s : Set) (seed : Bytes) (w : World)
      → set_of alg ≡ some s
      → length seed ≡ seed_length s
      → keypair_from_seed a alg (u8 seed) w ≡ (value (expand a s seed), w)
  unfolding keypair_from_seed ◌>>=◌
  from_its_seed alg s seed w e long = rw (e, long, ==_refl (seed_length s)) refl

  -- A key pair that the module returns as newly generated is of the set asked for, has passed the
  -- pairwise consistency test of its set, and is the one that the service for seeds gives for its
  -- seed, in whatever state of the generator.
  pub generate_keypair-keypair_from_seed :
      (alg : Value) (w w' : World) (key : NewKey)
      → (generate_keypair a alg w).0 ≡ value key
      → (set_of alg ≡ some key.alg)
        × ((r : Bytes) × (agrees a key.alg (pair_of key) r ≡ true))
        × (keypair_from_seed a alg (u8 key.seed) w' ≡ (value (pair_of key), w'))
  unfolding generate_keypair
  generate_keypair-keypair_from_seed alg w w' key h =
      let (s, p, h1) = bind-value (some_or (set_of alg) (usage not_offered)) _ w key h in
      let (same, (tested, made, long)) = generate_for-Checked s _ key h1 in
      let asked = taken (set_of alg) _ w s p ∙ ap some (sym same) in
      (
        asked,
        tested,
        from_its_seed alg key.alg key.seed w' asked long ∙ ap (λ (k : KeyPair). (value k, w')) made,
      )
