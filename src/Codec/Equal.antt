-- ===== src/Codec/Equal.antt =====
-- The constant-time comparisons: `bytesEqual` of src/seed.js, `constTimeEqualStrings` of
-- src/webhook.js, `kidEquals` of src/kid.js and `equal` of src/fips/module.js have one loop.
use kxco_post_quantum.Prelude.{
  ℕ, ◌≡◌, refl, ◌↔◌, Bool, true, false, List, [], ◌∷◌, arith, ◌==◌, if◌then◌else◌, length, bit_or,
  bit_xor, bit_or-eq-zero, bit_xor-eq-zero, bit_xor_self,
}

-- `diff |= a[i] ^ b[i]` for each index.
unfoldable pub diff_loop : ℕ → List ℕ → List ℕ → ℕ
diff_loop diff [] b = diff
diff_loop diff (x ∷ a) [] = diff
diff_loop diff (x ∷ a) (y ∷ b) = diff_loop (bit_or diff (bit_xor x y)) a b

unfoldable pub bytes_equal : List ℕ → List ℕ → Bool
unfolding diff_loop
bytes_equal a b = if length a == length b then diff_loop 0 a b == 0 else false

diff_loop-zero :
    (diff : ℕ) (a b : List ℕ) → length a ≡ length b → diff_loop diff a b ≡ 0 → (diff ≡ 0) × (a ≡ b)
unfolding diff_loop
diff_loop-zero diff [] [] l h = (h, refl)
diff_loop-zero diff [] (y ∷ b) l h = absurd (omega arith)
diff_loop-zero diff (x ∷ a) [] l h = absurd (omega arith)
diff_loop-zero diff (x ∷ a) (y ∷ b) l h =
    let (seen, rest) = diff_loop-zero (bit_or diff (bit_xor x y)) a b (omega arith) h in
    let (before, here) = bit_or-eq-zero diff (bit_xor x y) seen in
    (before, cc (bit_xor-eq-zero x y here))

diff_loop_self : (a : List ℕ) → diff_loop 0 a a ≡ 0
unfolding diff_loop
diff_loop_self [] = refl
diff_loop_self (x ∷ a) = rw (bit_xor_self x) (diff_loop_self a)

-- The loop answers true exactly on equal lists: the accumulated differences lose none.
pub bytes_equal_iff : (a b : List ℕ) → (bytes_equal a b ≡ true) ↔ (a ≡ b)
unfolding bytes_equal
bytes_equal_iff a b = (forth, back)
  where
    forth : (if length a == length b then diff_loop 0 a b == 0 else false) ≡ true → a ≡ b
    forth h = (diff_loop-zero 0 a b (ground arith) (ground arith)).1

    back : a ≡ b → (if length a == length b then diff_loop 0 a b == 0 else false) ≡ true
    back e = rw (← e) (ground (arith, diff_loop_self a))

pub bytes_equal_refl : (a : List ℕ) → bytes_equal a a ≡ true
bytes_equal_refl a = (bytes_equal_iff a a).1 refl
