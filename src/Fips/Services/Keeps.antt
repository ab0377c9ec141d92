-- ===== src/Fips/Services/Keeps.antt =====
-- Which services keep the generator live: all of them, whatever they return or throw.
use kxco_post_quantum.Prelude.{
  ℕ, ◌≤◌, ◌≡◌, Bool, true, false, Bool-cases, inl, inr, List, [], Option, none, some, Bytes, arith,
  ok, Result-cases,
}
use kxco_post_quantum.Value.{Value}
use kxco_post_quantum.Context.{Options}
use kxco_post_quantum.Fips.Entropy.{get_entropy}
use kxco_post_quantum.Fips.Drbg.{Hmac512, Drbg, reseed, generate, reseed_required}
use kxco_post_quantum.Fips.Drbg.Invariant.{HmacLaws, IsValid, reseed-IsValid, generate-IsValid}
use kxco_post_quantum.Fips.Services.{
  World, M, Outcome, value, throw, FipsError, Algorithms, proceed, ◌>>=◌, ensure, some_or, Set, kem,
  dsa,
}
use kxco_post_quantum.Fips.Services.Random.{
  random, reseed_world, generate_world, with_entropy, with_generated,
}
use kxco_post_quantum.Fips.Services.Calls.{
  pct_kem, pct_dsa, generate_for, generate_keypair, keypair_from_seed, encapsulate, decapsulate,
  sign, verify,
}

-- An instantiated generator in a valid state.
abbrev pub IsLive : Drbg → Type 0
IsLive d = IsValid d × (1 ≤ d.counter)

abbrev pub Keeps {ℓ} : {A : Type ℓ} → M A → Type 0
Keeps m = (w : World) → IsLive w.drbg → IsLive (m w).1.drbg

pub bind-Keeps {ℓ κ} :
    {A : Type ℓ} {B : Type κ} (m : M A) (f : A → M B)
    → Keeps m
    → ((a : A) → Keeps (f a))
    → Keeps (m >>= f)
unfolding ◌>>=◌
bind-Keeps m f hm hf w live = continue (m w).0 (m w).1 (hm w live)
  where
    continue : (o : Outcome _) (w' : World) → IsLive w'.drbg → IsLive (proceed f o w').1.drbg
    continue (value a) w' live' = hf a w' live'
    continue (throw e) w' live' = live'

pub some_or-Keeps {ℓ} : {A : Type ℓ} (o : Option A) (e : FipsError) → Keeps (some_or o e)
some_or-Keeps none e w live = live
some_or-Keeps (some a) e w live = live

pub ensure-Keeps : (b : Bool) (e : FipsError) → Keeps (ensure b e)
ensure-Keeps true e w live = live
ensure-Keeps false e w live = live

module _ (hmac : Hmac512) (laws : HmacLaws hmac) where
  with_entropy-Keeps :
      (entropy : Option Bytes) (device : List Bytes) → Keeps (with_entropy hmac entropy device)
  with_entropy-Keeps none device w live = live
  with_entropy-Keeps (some bytes) device w live =
      elim (Result-cases (reseed hmac bytes [] w.drbg)) [
        | inl (d, p) ↦ rw p (reseeded d p)
        | inr (e, p) ↦ rw p live
      ]
    where
      reseeded : (d : Drbg) → reseed hmac bytes [] w.drbg ≡ ok d → IsLive d
      reseeded d p =
          let (valid, one) = reseed-IsValid hmac laws bytes [] w.drbg d p in
          (valid, omega (arith, one))

  reseed_world-Keeps : Keeps (reseed_world hmac)
  unfolding reseed_world
  reseed_world-Keeps w live =
      with_entropy-Keeps (get_entropy 48 w.device).0 (get_entropy 48 w.device).1 w live

  generate_world-Keeps : (n : ℕ) → Keeps (generate_world hmac n)
  unfolding generate_world
  generate_world-Keeps n w live = elim (Result-cases (generate hmac n [] w.drbg)) [
    | inl (g, p) ↦ rw p (generated g p)
    | inr (e, p) ↦ rw p live
  ]
    where
      generated :
          (g : Bytes × Drbg)
          → generate hmac n [] w.drbg ≡ ok g
          → IsLive (with_generated (ok g) w).1.drbg
      generated (out, d) p =
          let (valid, next, _, _, _) = generate-IsValid hmac laws n [] out w.drbg d p in
          (valid, omega (arith, next))

  pub random-Keeps : (n : ℕ) → Keeps (random hmac n)
  unfolding random
  random-Keeps n w live = elim (Bool-cases (reseed_required w.drbg)) [
    | inl e ↦ rw e (
        bind-Keeps (reseed_world hmac) (λ _. generate_world hmac n) reseed_world-Keeps
          (λ _. generate_world-Keeps n) w live)
    | inr e ↦ rw e (generate_world-Keeps n w live)
  ]

module _ (a : Algorithms) (laws : HmacLaws a.hmac512) where
  some_or-then {ℓ κ} :
      {A : Type ℓ} {B : Type κ} (o : Option A) (e : FipsError) (f : A → M B)
      → ((x : A) → Keeps (f x))
      → Keeps (some_or o e >>= f)
  some_or-then o e f h = bind-Keeps (some_or o e) f (some_or-Keeps o e) h

  random-then {ℓ} :
      {B : Type ℓ} (n : ℕ) (f : Bytes → M B)
      → ((x : Bytes) → Keeps (f x))
      → Keeps (random a.hmac512 n >>= f)
  random-then n f h = bind-Keeps (random a.hmac512 n) f (random-Keeps a.hmac512 laws n) h

  generate_for-Keeps : (s : Set) → Keeps (generate_for a s)
  unfolding generate_for pct_kem pct_dsa
  generate_for-Keeps (kem k) =
      random-then 64 _
        λ seed. bind-Keeps _ _ (random-then 32 _ λ m. ensure-Keeps _ _) λ u. λ w live. live
  generate_for-Keeps (dsa d) =
      random-then 32 _
        λ seed. bind-Keeps _ _ (random-then 32 _ λ m. ensure-Keeps _ _) λ u. λ w live. live

  pub generate_keypair-Keeps : (alg : Value) → Keeps (generate_keypair a alg)
  unfolding generate_keypair
  generate_keypair-Keeps alg = some_or-then _ _ _ generate_for-Keeps

  pub keypair_from_seed-Keeps : (alg seed : Value) → Keeps (keypair_from_seed a alg seed)
  unfolding keypair_from_seed
  keypair_from_seed-Keeps alg seed =
      some_or-then _ _ _
        λ s. some_or-then _ _ _ λ bytes. bind-Keeps _ _ (ensure-Keeps _ _) λ u. λ w live. live

  pub encapsulate-Keeps : (alg public_key : Value) → Keeps (encapsulate a alg public_key)
  unfolding encapsulate
  encapsulate-Keeps alg public_key =
      some_or-then _ _ _ λ k. some_or-then _ _ _ λ key. random-then 32 _ λ m. some_or-Keeps _ _

  pub decapsulate-Keeps :
      (alg cipher_text secret_key : Value) → Keeps (decapsulate a alg cipher_text secret_key)
  unfolding decapsulate
  decapsulate-Keeps alg ct sk =
      some_or-then _ _ _ λ k. some_or-then _ _ _ λ c. some_or-then _ _ _ λ s. some_or-Keeps _ _

  pub sign-Keeps :
      (alg secret_key message : Value) (opts : Options) → Keeps (sign a alg secret_key message opts)
  unfolding sign
  sign-Keeps alg sk msg opts = some_or-then _ _ _ λ d. some_or-then _ _ _ λ s.
      bind-Keeps _ _ (λ w live. live)
        λ context. some_or-then _ _ _ λ m. random-then 32 _ λ rnd. some_or-Keeps _ _

  pub verify-Keeps :
      (alg public_key message signature : Value) (opts : Options)
      → Keeps (verify a alg public_key message signature opts)
  unfolding verify
  verify-Keeps alg pk msg sig opts = some_or-then _ _ _ λ d.
      bind-Keeps _ _ (λ w live. live)
        λ context.
          some_or-then _ _ _ λ m. some_or-then _ _ _ λ p. some_or-then _ _ _ λ s. λ w live. live
