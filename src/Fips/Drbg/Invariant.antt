-- ===== src/Fips/Drbg/Invariant.antt =====
-- The invariant of the generator, which every operation keeps.
use kxco_post_quantum.Prelude.{
  ℕ, ◌+◌, ◌^◌, ◌≤◌, ◌≡◌, refl, sym, ap, true, Bool-cases, inl, inr, Option, none, some, arith, ltb,
  ◌==◌, length, Bytes, ok, >>=-eq-ok, ok-injective, require, required, not, ◌||◌,
}
use mathlib.Core.Path.{subst}
use kxco_post_quantum.Fips.Drbg.{
  Hmac512, Keys, Drbg, step, update, instantiate, reseed, generate, require_instantiated,
  reseed_interval, max_bytes_per_request, low_entropy, short_nonce, length_out_of_range,
  reseed_is_required, uninstantiate,
}

-- HMAC-SHA-512 gives 64 bytes.
pub record HmacLaws (hmac : Hmac512) : Type 0 where
  pub length_hmac : (key message : Bytes) → length (hmac key message) ≡ 64

abbrev pub IsWhole : Keys → Type 0
IsWhole s = (length s.k ≡ 64) × (length s.v ≡ 64)

-- Not instantiated with the counter at 0, or with whole keys and a counter between 1 and the
-- interval and one.
abbrev pub IsValidKeys : Option Keys → ℕ → Type 0
IsValidKeys none n = n ≡ 0
IsValidKeys (some s) n = IsWhole s × (1 ≤ n) × (n ≤ 2 ^ 20 + 1)

abbrev pub IsValid : Drbg → Type 0
IsValid d = IsValidKeys d.keys d.counter

IsValid-of :
    (s : Keys) (n : ℕ) (d : Drbg)
    → ◌≡◌ {A = Drbg} (record { keys = some s; counter = n }) d
    → IsWhole s
    → 1 ≤ n
    → n ≤ 2 ^ 20 + 1
    → IsValid d
IsValid-of s n d e whole low high = subst IsValid e (whole, low, high)

within_interval : (c : ℕ) → not (ltb reseed_interval c) ≡ true → c ≤ 2 ^ 20
within_interval c h = ground arith

in_range : (n : ℕ) → not (ltb n 1 || ltb max_bytes_per_request n) ≡ true → (1 ≤ n) × (n ≤ 65536)
in_range n h = ground arith

module _ (hmac : Hmac512) (laws : HmacLaws hmac) where
  pub update-IsWhole : (provided : Bytes) (s : Keys) → IsWhole (update hmac provided s)
  unfolding update step
  update-IsWhole provided s = elim (Bool-cases (length provided == 0)) [
    | inl e ↦ rw e (laws.length_hmac _ _, laws.length_hmac _ _)
    | inr e ↦ rw e (laws.length_hmac _ _, laws.length_hmac _ _)
  ]

  pub instantiate-IsValid :
      (entropy nonce personalization : Bytes) (d : Drbg)
      → instantiate hmac entropy nonce personalization ≡ ok d
      → IsValid d × (d.counter ≡ 1)
  unfolding instantiate
  instantiate-IsValid entropy nonce personalization d h =
      let (_, _, h1) = >>=-eq-ok (require (not (ltb (length entropy) 32)) low_entropy) _ h in
      let (_, _, h2) = >>=-eq-ok (require (not (ltb (length nonce) 16)) short_nonce) _ h1 in
      (
        IsValid-of _ 1 d (ok-injective h2) (update-IsWhole _ _) (omega arith) (omega arith),
        sym (ap (λ e. e.counter) (ok-injective h2)),
      )

  pub reseed-IsValid :
      (entropy additional : Bytes) (d d' : Drbg)
      → reseed hmac entropy additional d ≡ ok d'
      → IsValid d' × (d'.counter ≡ 1)
  unfolding reseed
  reseed-IsValid entropy additional d d' h =
      let (s, _, h1) = >>=-eq-ok (require_instantiated hmac d) _ h in
      let (_, _, h2) = >>=-eq-ok (require (not (ltb (length entropy) 32)) low_entropy) _ h1 in
      (
        IsValid-of _ 1 d' (ok-injective h2) (update-IsWhole _ s) (omega arith) (omega arith),
        sym (ap (λ e. e.counter) (ok-injective h2)),
      )

  -- A request that succeeds leaves a valid state with the counter one further, and was made
  -- within the reseed interval.
  pub generate-IsValid :
      (n : ℕ) (additional out : Bytes) (d d' : Drbg)
      → generate hmac n additional d ≡ ok (out, d')
      → IsValid d' × (d'.counter ≡ d.counter + 1) × (d.counter ≤ 2 ^ 20) × (1 ≤ n) × (n ≤ 65536)
  unfolding generate
  generate-IsValid n additional out d d' h =
      let (s, _, h1) = >>=-eq-ok (require_instantiated hmac d) _ h in
      let (_, sized, h2) =
        >>=-eq-ok (require (not (ltb n 1 || ltb max_bytes_per_request n)) length_out_of_range) _
          h1 in
      let (_, fresh_enough, h3) =
        >>=-eq-ok (require (not (ltb reseed_interval d.counter)) reseed_is_required) _ h2 in
      let in_interval : d.counter ≤ 2 ^ 20 =
        within_interval d.counter (required _ reseed_is_required fresh_enough) in
      let (low, high) = in_range n (required _ length_out_of_range sized) in
      let state = ap (λ (e : Bytes × Drbg). e.1) (ok-injective h3) in
      (
        IsValid-of _ (d.counter + 1) d' state (update-IsWhole additional _) (omega arith)
            (omega arith),
        sym (ap (λ e. e.counter) state),
        in_interval,
        low,
        high,
      )

pub uninstantiate-IsValid : (d : Drbg) → IsValid (uninstantiate d)
unfolding uninstantiate
uninstantiate-IsValid d = refl
