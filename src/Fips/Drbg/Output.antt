-- ===== src/Fips/Drbg/Output.antt =====
-- What `generate` returns, against the definition of SP 800-90A section 10.1.2.5.
use kxco_post_quantum.Prelude.{
  ℕ, zero, suc, ◌+◌, ◌-◌, ◌*◌, ◌≤◌, ◌≡◌, refl, sym, ap, ◌∙◌, false, Bool-cases, inl, inr, some, [],
  ◌++◌, min, arith, ltb, ltb→lt, length, length-append, length-take, take, take-append_split,
  take-min, Bytes, ok, >>=-eq-ok, ok-injective, require, not, ◌||◌,
}
use mathlib.Core.Path.{ap₂}
use mathlib.Core.List.{append-nil, append_assoc}
use native.Mathlib.Nat.{sub-zero}
use kxco_post_quantum.Fips.Drbg.{
  Hmac512, Keys, Drbg, output_loop, update_if_given, generate, require_instantiated,
  max_bytes_per_request, reseed_interval, length_out_of_range, reseed_is_required,
}
use kxco_post_quantum.Fips.Drbg.Invariant.{HmacLaws}

block_split :
    (m : ℕ) (v rest : Bytes)
    → length v ≡ 64
    → take m (v ++ rest) ≡ take (min 64 m) v ++ take (m - length (take (min 64 m) v)) rest
block_split m v rest h =
    rw (take-append_split m v rest) (ap₂ ◌++◌ same_part (ap (λ j. take j rest) same_rest))
  where
    same_part : take m v ≡ take (min 64 m) v
    same_part = sym (rw h at (take-min m v))

    same_rest : m - length v ≡ m - length (take (min 64 m) v)
    same_rest = omega (arith, length-take (min 64 m) v)

module _ (hmac : Hmac512) (laws : HmacLaws hmac) where
  -- `V = HMAC(K, V)`, again and again, and the values of V one after the other.
  unfoldable pub blocks : ℕ → Bytes → Bytes → Bytes
  blocks zero k v = []
  blocks (suc n) k v = hmac k v ++ blocks n k (hmac k v)

  output_loop-blocks :
      (rounds bytes : ℕ) (out k v : Bytes)
      → length out ≤ bytes
      → bytes ≤ length out + 64 * rounds
      → (output_loop hmac rounds bytes out k v).0
        ≡ out ++ take (bytes - length out) (blocks rounds k v)
  unfolding output_loop blocks
  output_loop-blocks zero bytes out k v h enough = rw none_left (sym (append-nil out))
    where
      none_left : bytes - length out ≡ 0
      none_left = omega arith
  output_loop-blocks (suc rounds) bytes out k v h enough =
      elim (Bool-cases (ltb (length out) bytes)) [
        | inl more ↦ rw more (
            output_loop-blocks rounds bytes (out ++ part) k (hmac k v) (omega (arith, longer))
              (omega (arith, longer, ltb→lt (length out) bytes more))
            ∙ rw (append_assoc, shorter)
                (ap (λ r. out ++ r)
                  (sym (
                    block_split (bytes - length out) (hmac k v) (blocks rounds k (hmac k v))
                      (laws.length_hmac k v)))))
        | inr done ↦ rw (done, all_filled done) (sym (append-nil out))
      ]
    where
      part : Bytes
      part = take (min 64 (bytes - length out)) (hmac k v)

      longer : length (out ++ part) ≡ length out + min 64 (bytes - length out)
      longer = omega (
        arith,
        length-append out part,
        length-take (min 64 (bytes - length out)) (hmac k v),
        laws.length_hmac k v,
      )

      shorter : bytes - length (out ++ part) ≡ bytes - length out - length part
      shorter = omega (arith, length-append out part)

      all_filled : ltb (length out) bytes ≡ false → bytes - length out ≡ 0
      all_filled done = ground arith

  all_blocks : (n : ℕ) (k v : Bytes) → (output_loop hmac n n [] k v).0 ≡ take n (blocks n k v)
  all_blocks n k v = output_loop-blocks n n [] k v (omega arith) (omega arith) ∙ rw sub-zero

  length-blocks : (n : ℕ) (k v : Bytes) → length (blocks n k v) ≡ 64 * n
  unfolding blocks
  length-blocks zero k v = refl
  length-blocks (suc n) k v = omega (
    arith,
    length-append (hmac k v) (blocks n k (hmac k v)),
    laws.length_hmac k v,
    length-blocks n k (hmac k v),
  )

  -- A request that succeeds returns the first bytes of `HMAC(K, V)`, `HMAC(K, HMAC(K, V))` and so
  -- on, as many as were asked for, where K and V are the state's, updated first if additional
  -- input was given.
  pub generate-blocks :
      (n : ℕ) (additional out : Bytes) (d d' : Drbg)
      → generate hmac n additional d ≡ ok (out, d')
      → (s : Keys) × (d.keys ≡ some s)
        × (out
            ≡ take n (
                blocks n
                  (update_if_given hmac additional s).k
                  (update_if_given hmac additional s).v))
        × (length out ≡ n)
  unfolding generate
  generate-blocks n additional out d d' h =
      let (s, found, h1) = >>=-eq-ok (require_instantiated hmac d) _ h in
      let (_, _, h2) =
        >>=-eq-ok (require (not (ltb n 1 || ltb max_bytes_per_request n)) length_out_of_range) _
          h1 in
      let (_, _, h3) =
        >>=-eq-ok (require (not (ltb reseed_interval d.counter)) reseed_is_required) _ h2 in
      let s1 = update_if_given hmac additional s in
      let same = sym (ap (λ (e : Bytes × Drbg). e.0) (ok-injective h3)) ∙ all_blocks n s1.k s1.v in
      (
        s,
        instantiated d s found,
        same,
        ap length same
            ∙ length-take n (blocks n s1.k s1.v)
            ∙ omega (arith, length-blocks n s1.k s1.v),
      )
    where
      instantiated : (e : Drbg) (t : Keys) → require_instantiated hmac e ≡ ok t → e.keys ≡ some t
      instantiated e t p = ground arith
