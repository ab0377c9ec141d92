-- ===== src/Prelude/Bits.antt =====
-- Laws of `|`, `&` and `^` on native numbers at variables, from the digit recursions that the
-- native operations stand for.
use mathlib.Core.Path.{◌≡◌, refl}
use native.Mathlib.Omega.{arith}
use Prim.Native.Nat.{
  bit_xor, bit_xor-bitwise, bit_or, bit_or-bitwise, bit_and, bit_and-bitwise, digits, differ, min,
  max, ◌<◌, ◌≤◌, ◌%◌, ◌/◌, ◌*◌, ◌+◌, suc, zero, ℕ,
}

-- What holds of any operation that is read digit by digit: one more round than needed changes
-- nothing, and the last digit can be split off.
module _ (rest : ℕ → ℕ) (op : ℕ → ℕ → ℕ) where
  rounds_agree :
      (many few x y : ℕ) → x ≤ few → x ≤ many → digits rest op many x y ≡ digits rest op few x y
  rounds_agree zero zero x y low high = refl
  rounds_agree zero (suc few) zero y low high = refl
  rounds_agree zero (suc few) (suc x) y low high = absurd (omega arith)
  rounds_agree (suc many) zero zero y low high = refl
  rounds_agree (suc many) zero (suc x) y low high = absurd (omega arith)
  rounds_agree (suc many) (suc few) zero y low high = refl
  rounds_agree (suc many) (suc few) (suc x) y low high =
      omega (arith, rounds_agree many few (suc x / 2) (y / 2) (omega arith) (omega arith))

  last_digit :
      (g : ℕ → ℕ → ℕ)
      → ((x y : ℕ) → g x y ≡ digits rest op x x y)
      → ((y : ℕ) → rest y ≡ op 0 (y % 2) + 2 * rest (y / 2))
      → (x y : ℕ) → g x y ≡ op (x % 2) (y % 2) + 2 * g (x / 2) (y / 2)
  last_digit g reads at_zero zero y = omega (arith, reads 0 (y / 2), at_zero y, reads 0 y)
  last_digit g reads at_zero (suc x) y =
      omega (arith, reads (suc x / 2) (y / 2), enough, reads (suc x) y)
    where
      enough : digits rest op x (suc x / 2) (y / 2) ≡ digits rest op (suc x / 2) (suc x / 2) (y / 2)
      enough = rounds_agree x (suc x / 2) _ _ (omega arith) (omega arith)

abbrev or_digits : ℕ → ℕ → ℕ → ℕ
or_digits n a b = digits (λ y. y) max n a b

abbrev xor_digits : ℕ → ℕ → ℕ → ℕ
xor_digits n a b = digits (λ y. y) differ n a b

or_digits-zero : (n a b : ℕ) → a ≤ n → or_digits n a b ≡ 0 → (a ≡ 0) × (b ≡ 0)
or_digits-zero zero a b p h = omega arith
or_digits-zero (suc n) zero b p h = omega arith
or_digits-zero (suc n) (suc a) b p h =
    omega (arith, or_digits-zero n (suc a / 2) (b / 2) (omega arith) (omega arith))

-- `a | b` is 0 only if both are.
pub bit_or-eq-zero : (a b : ℕ) → bit_or a b ≡ 0 → (a ≡ 0) × (b ≡ 0)
bit_or-eq-zero a b h = or_digits-zero a a b (omega arith) (omega (arith, bit_or-bitwise a b))

differ-zero : (x y : ℕ) → differ x y ≡ 0 → x ≡ y
differ-zero zero y h = omega arith
differ-zero (suc x) zero h = h
differ-zero (suc x) (suc y) h = omega (arith, differ-zero x y h)

differ_self : (x : ℕ) → differ x x ≡ 0
differ_self zero = refl
differ_self (suc x) = differ_self x

xor_digits-zero : (n a b : ℕ) → a ≤ n → xor_digits n a b ≡ 0 → a ≡ b
xor_digits-zero zero a b p h = omega arith
xor_digits-zero (suc n) zero b p h = omega arith
xor_digits-zero (suc n) (suc a) b p h = omega (
  arith,
  xor_digits-zero n (suc a / 2) (b / 2) (omega arith) (omega arith),
  differ-zero (suc a % 2) (b % 2) (omega arith),
)

-- `a ^ b` is 0 only if they are equal,
pub bit_xor-eq-zero : (a b : ℕ) → bit_xor a b ≡ 0 → a ≡ b
bit_xor-eq-zero a b h = xor_digits-zero a a b (omega arith) (omega (arith, bit_xor-bitwise a b))

xor_digits_self : (n a : ℕ) → a ≤ n → xor_digits n a a ≡ 0
xor_digits_self zero a p = omega arith
xor_digits_self (suc n) zero p = refl
xor_digits_self (suc n) (suc a) p =
    omega (arith, xor_digits_self n (suc a / 2) (omega arith), differ_self (suc a % 2))

-- and 0 whenever they are.
pub bit_xor_self : (a : ℕ) → bit_xor a a ≡ 0
bit_xor_self a = omega (arith, bit_xor-bitwise a a, xor_digits_self a a (omega arith))

bit_or_step : (x y : ℕ) → bit_or x y ≡ max (x % 2) (y % 2) + 2 * bit_or (x / 2) (y / 2)
bit_or_step = last_digit (λ y. y) max bit_or bit_or-bitwise (λ y. omega arith)

bit_and_step : (x y : ℕ) → bit_and x y ≡ min (x % 2) (y % 2) + 2 * bit_and (x / 2) (y / 2)
bit_and_step = last_digit (λ y. 0) min bit_and bit_and-bitwise (λ y. omega arith)

or_zero_count : (n a : ℕ) → a ≤ n → bit_or a 0 ≡ a
or_zero_count zero a h = omega (arith, bit_or-bitwise a 0, or_zero_of_zero a (omega arith))
  where
    or_zero_of_zero : (c : ℕ) → c ≡ 0 → bit_or c 0 ≡ c
    or_zero_of_zero zero e = refl
    or_zero_of_zero (suc c) e = absurd (omega arith)
or_zero_count (suc n) zero h = refl
or_zero_count (suc n) (suc a) h =
    omega (arith, bit_or_step (suc a) 0, or_zero_count n (suc a / 2) (omega arith))

pub bit_or-zero : (a : ℕ) → bit_or a 0 ≡ a
bit_or-zero a = or_zero_count a a (omega arith)

or_even : (a q r : ℕ) → a ≡ q * 2 → bit_or a r ≡ bit_or q (r / 2) * 2 + r % 2
or_even a q r h = omega (arith, bit_or_step a r, half_of)
  where
    half_of : bit_or (a / 2) (r / 2) ≡ bit_or q (r / 2)
    half_of = rw halved
      where
        halved : a / 2 ≡ q
        halved = omega arith

or_fields16 : (q r : ℕ) → r < 16 → bit_or (q * 16) r ≡ q * 16 + r
or_fields16 q r h = omega (
  arith,
  or_even (q * 16) (q * 8) r (omega arith),
  or_even (q * 8) (q * 4) (r / 2) (omega arith),
  or_even (q * 4) (q * 2) (r / 2 / 2) (omega arith),
  or_even (q * 2) q (r / 2 / 2 / 2) (omega arith),
  none_left,
)
  where
    none_left : bit_or q (r / 2 / 2 / 2 / 2) ≡ q
    none_left = rw gone (bit_or-zero q)
      where
        gone : r / 2 / 2 / 2 / 2 ≡ 0
        gone = omega arith

-- `(q << 8) | r` is a sum when `r` is a byte.
pub bit_or_byte : (q r : ℕ) → r < 256 → bit_or (q * 256) r ≡ q * 256 + r
bit_or_byte q r h = omega (
  arith,
  or_even (q * 256) (q * 128) r (omega arith),
  or_even (q * 128) (q * 64) (r / 2) (omega arith),
  or_even (q * 64) (q * 32) (r / 2 / 2) (omega arith),
  or_even (q * 32) (q * 16) (r / 2 / 2 / 2) (omega arith),
  or_fields16 q (r / 2 / 2 / 2 / 2) (omega arith),
)

and_zero_count : (n a : ℕ) → a ≤ n → bit_and a 0 ≡ 0
and_zero_count n zero h = refl
and_zero_count zero (suc a) h = absurd (omega arith)
and_zero_count (suc n) (suc a) h =
    omega (arith, bit_and_step (suc a) 0, and_zero_count n (suc a / 2) (omega arith))

-- A mask of ones is a remainder.
and_ones4 : (a : ℕ) → bit_and a 15 ≡ a % 16
and_ones4 a = omega (
  arith,
  bit_and_step a 15,
  bit_and_step (a / 2) 7,
  bit_and_step (a / 2 / 2) 3,
  bit_and_step (a / 2 / 2 / 2) 1,
  and_zero_count (a / 2 / 2 / 2 / 2) (a / 2 / 2 / 2 / 2) (omega arith),
)

pub bit_and_low7 : (a : ℕ) → bit_and a 0x7f ≡ a % 128
bit_and_low7 a = omega (
  arith,
  bit_and_step a 127,
  bit_and_step (a / 2) 63,
  bit_and_step (a / 2 / 2) 31,
  and_ones4 (a / 2 / 2 / 2),
)

pub bit_and_low8 : (a : ℕ) → bit_and a 0xff ≡ a % 256
bit_and_low8 a = omega (arith, bit_and_step a 255, bit_and_low7 (a / 2))
