-- ===== src/Seed/Der/Laws.antt =====
-- DER lengths: the reader inverts the writer, and every length that is read is below 2 ^ 24.
use kxco_post_quantum.Prelude.{
  ℕ, zero, suc, ◌+◌, ◌*◌, ◌/◌, ◌%◌, ◌^◌, ◌≤◌, ◌<◌, ◌≡◌, List, [], ◌∷◌, ◌++◌, Option-cases, inl, inr,
  arith, length, get_elem?, All, bit_and, bit_or, bit_or_byte, bit_and_low7, bit_and_low8, Bytes,
  IsByte, ok,
}
use native.Mathlib.Nat.{pow-suc, mul_comm}
use kxco_post_quantum.Seed.Der.{der_length, der, byte_or_zero, length_loop, read_length}

pub der_short :
    (tag n : ℕ) (payload : List ℕ)
    → length payload ≡ n
    → n < 128
    → der tag payload ≡ tag ∷ n ∷ payload
unfolding der der_length
der_short tag n payload e h = ground arith

get_byte : (buf : Bytes) (i : ℕ) → All IsByte buf → byte_or_zero (get_elem? buf i) < 256
get_byte [] i h = omega arith
get_byte (b ∷ buf) zero h = h.0
get_byte (b ∷ buf) (suc i) h = get_byte buf i h.1

mul_mono : (a b p : ℕ) → a ≤ b → a * p ≤ b * p
mul_mono a b p h = grind arith

loop_round_bound :
    (n b m p : ℕ) → b < 256 → m < (bit_or (n * 2 ^ 8) b + 1) * p → m < (n + 1) * (256 * p)
loop_round_bound n b m p hb h =
    let grown = mul_mono (n * 256 + b + 1) ((n + 1) * 256) p (omega arith) in
    let bound = rw (bit_or_byte n b hb) at h in omega arith

length_loop_bound :
    (rounds : ℕ) (buf : Bytes) (i n : ℕ)
    → All IsByte buf
    → (length_loop rounds buf i n).0 < (n + 1) * 256 ^ rounds
length_loop_bound zero buf i n h = unfold length_loop in omega arith
length_loop_bound (suc rounds) buf i n h = step (length_loop_bound rounds buf (i + 1) _ h)
  where
    b : ℕ
    b = byte_or_zero (get_elem? buf i)

    step :
        (length_loop rounds buf (i + 1) (bit_or (n * 2 ^ 8) b)).0
          < (bit_or (n * 2 ^ 8) b + 1) * 256 ^ rounds
        → (length_loop (suc rounds) buf i n).0 < (n + 1) * 256 ^ suc rounds
    step k =
        unfold length_loop in
        rw (pow-suc 256 rounds) (
          rw (mul_comm (256 ^ rounds) 256)
            (loop_round_bound n b _ (256 ^ rounds) (get_byte buf i h) k))

pow_le : (k : ℕ) → k ≤ 3 → 256 ^ k ≤ 2 ^ 24
pow_le zero h = omega arith
pow_le (suc zero) h = omega arith
pow_le (suc (suc zero)) h = omega arith
pow_le (suc (suc (suc zero))) h = omega arith
pow_le (suc (suc (suc (suc k)))) h = absurd (omega arith)

-- Whatever the input, a length that is read is below 2 ^ 24.
pub read_length_bound :
    (buf : Bytes) (i n j : ℕ) → All IsByte buf → read_length buf i ≡ ok (n, j) → n < 2 ^ 24
unfolding read_length
read_length_bound buf i n j h e = elim (Option-cases (get_elem? buf i)) [
  | inl past ↦ cc (rw (past, read_length) at e)
  | inr (first, here) ↦ ground (
    arith,
    here,
    bit_and_low7 first,
    pow_le (bit_and first 0x7f),
    length_loop_bound (bit_and first 0x7f) buf (i + 1) 0 h,
    get_byte buf i h,
  )
]

-- A length below 2 ^ 16 that is written is read back, whatever follows it, and the reader stops
-- right behind it.
pub read_length-der_length :
    (n : ℕ) (rest : Bytes)
    → n < 2 ^ 16
    → read_length (der_length n ++ rest) 0 ≡ ok (n, length (der_length n))
unfolding read_length der_length length_loop
read_length-der_length n rest h = ground (
  arith,
  bit_and_low8 n,
  bit_or_byte 0 n,
  bit_or_byte 0 (n / 256),
  bit_or_byte (n / 256) (n % 256),
)
