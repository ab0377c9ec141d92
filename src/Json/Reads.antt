-- ===== src/Json/Reads.antt =====
-- The token readers of `JSON.parse` read code units from code units.
use kxco_post_quantum.Prelude.{
  ℕ, zero, suc, ◌+◌, ◌*◌, ◌<◌, ◌≡◌, refl, Bool, true, false, Bool-cases, Option-cases, inl, inr, [],
  ◌∷◌, some, ◌==◌, arith, All, Text, Result, ok, err, ◌>>=◌,
}
use mathlib.Core.List.{tail}
use kxco_post_quantum.Codec.Hex.{is_hex, hex_value}
use kxco_post_quantum.Json.Quote.Laws.{IsUnit}
use kxco_post_quantum.Json.Scan.{
  ParseError, Parsed, is_space, skip_space, expect, Mode, plain, escaped, digits, Next, finish, bad,
  go, emit, read_digit, string_step, string_loop, prepend, advance, NumState, begin, num_step,
  num_ends, num_stop, number_loop,
}
use kxco_post_quantum.Json.Parse.{map_parsed, separator}
use kxco_post_quantum.Json.Tokens.{IsNumber}

-- Where a text was read: a property of what was read, and code units behind it.
abbrev pub Reads {ℓ} : {A : Type ℓ} → (A → Type 0) → Parsed A → Type 0
Reads P (ok (a, rest)) = P a × All IsUnit rest
Reads P (err e) = Unit {0}

abbrev pub RestReads : Result ParseError Text → Type 0
RestReads (ok rest) = All IsUnit rest
RestReads (err e) = Unit {0}

-- A chain of readers.
pub Reads-then {ℓ κ} :
    {A : Type ℓ} {B : Type κ} (P : A → Type 0) (Q : B → Type 0) (r : Parsed A)
    (k : A → Text → Parsed B)
    → Reads P r
    → ((a : A) (s : Text) → P a → All IsUnit s → Reads Q (k a s))
    → Reads Q (r >>= λ p. k p.0 p.1)
Reads-then P Q (ok (a, s)) k h next = next a s h.0 h.1
Reads-then P Q (err e) k h next = tt

pub RestReads-then {κ} :
    {B : Type κ} (Q : B → Type 0) (r : Result ParseError Text) (k : Text → Parsed B)
    → RestReads r
    → ((s : Text) → All IsUnit s → Reads Q (k s))
    → Reads Q (r >>= k)
RestReads-then Q (ok s) k h next = next s h
RestReads-then Q (err e) k h next = tt

pub map_parsed-Reads {ℓ κ} :
    {A : Type ℓ} {B : Type κ} (g : A → B) (P : A → Type 0) (Q : B → Type 0) (r : Parsed A)
    → ((a : A) → P a → Q (g a))
    → Reads P r
    → Reads Q (map_parsed g r)
map_parsed-Reads g P Q (ok (a, s)) f h = (f a h.0, h.1)
map_parsed-Reads g P Q (err e) f h = tt

pub skip_space-units : (s : Text) → All IsUnit s → All IsUnit (skip_space s)
unfolding skip_space
skip_space-units [] h = tt
skip_space-units (c ∷ s) (h, hs) = elim (Bool-cases (is_space c)) [
  | inl e ↦ rw e (skip_space-units s hs)
  | inr e ↦ rw e (h, hs)
]

pub tail-units : (s : Text) → All IsUnit s → All IsUnit (tail s)
tail-units [] h = tt
tail-units (c ∷ s) h = h.1

pub expect-RestReads : (p s : Text) → All IsUnit s → RestReads (expect p s)
unfolding expect
expect-RestReads [] s h = h
expect-RestReads (c ∷ p) [] h = tt
expect-RestReads (c ∷ p) (d ∷ s) (h, hs) = elim (Bool-cases (c == d)) [
  | inl e ↦ rw e (expect-RestReads p s hs)
  | inr e ↦ rw e tt
]

pub separator-RestReads : (first : Bool) (s : Text) → All IsUnit s → RestReads (separator first s)
unfolding separator
separator-RestReads true s h = h
separator-RestReads false s h = expect-RestReads (b',' ∷ []) _ (skip_space-units s h)

-- What has been read of the four digits leaves room for the others.
abbrev ModeFits : Mode → Type 0
ModeFits plain = Unit {0}
ModeFits escaped = Unit {0}
ModeFits (digits zero v) = v < 0x1000
ModeFits (digits (suc zero) v) = v < 0x100
ModeFits (digits (suc (suc zero)) v) = v < 0x10
ModeFits (digits (suc (suc (suc zero))) v) = v < 1
ModeFits (digits (suc (suc (suc (suc left)))) v) = ⊥

abbrev NextFits : Next → Type 0
NextFits finish = Unit {0}
NextFits bad = Unit {0}
NextFits (go m) = ModeFits m
NextFits (emit u) = IsUnit u

hex_value_bound : (c : ℕ) → is_hex c ≡ true → hex_value c < 16
unfolding is_hex hex_value
hex_value_bound c h = ground arith

string_step-NextFits : (m : Mode) (c : ℕ) → ModeFits m → IsUnit c → NextFits (string_step m c)
unfolding string_step
string_step-NextFits plain c h u = ground arith
string_step-NextFits escaped c h u = ground arith
string_step-NextFits (digits left v) c h u = elim (Bool-cases (is_hex c)) [
  | inr e ↦ rw e tt
  | inl e ↦ rw e (digit left v h (hex_value_bound c e))
]
  where
    digit :
        (left v : ℕ)
        → ModeFits (digits left v)
        → hex_value c < 16
        → NextFits (read_digit left (v * 16 + hex_value c))
    digit zero v h k = omega arith
    digit (suc zero) v h k = omega arith
    digit (suc (suc zero)) v h k = omega arith
    digit (suc (suc (suc zero))) v h k = omega arith
    digit (suc (suc (suc (suc left)))) v h k = absurd h

prepend-Reads :
    (u : ℕ) (r : Parsed Text) → IsUnit u → Reads (All IsUnit) r → Reads (All IsUnit) (prepend u r)
prepend-Reads u (ok (t, rest)) h (ht, hr) = ((h, ht), hr)
prepend-Reads u (err e) h hr = tt

pub string_loop-Reads :
    (m : Mode) (s : Text) → ModeFits m → All IsUnit s → Reads (All IsUnit) (string_loop m s)
unfolding string_loop
string_loop-Reads m [] fits h = tt
string_loop-Reads m (c ∷ s) fits (hc, hs) =
    step (string_step m c) (λ m'. string_loop m' s) (string_step-NextFits m c fits hc)
      (λ m' f. string_loop-Reads m' s f hs)
  where
    step :
        (n : Next) (more : Mode → Parsed Text)
        → NextFits n
        → ((m : Mode) → ModeFits m → Reads (All IsUnit) (more m))
        → Reads (All IsUnit) (advance n s more)
    step finish more f h = (tt, hs)
    step bad more f h = tt
    step (go m) more f h = h m f
    step (emit u) more f h = prepend-Reads u (more plain) f (h plain tt)

-- Whatever of a number is read is read as a number by itself.
abbrev NumberAgain : NumState → Text → Type 0
NumberAgain n t = number_loop n t ≡ ok (t, [])

stop_again : (n : NumState) (s : Text) → All IsUnit s → Reads (NumberAgain n) (num_stop n s)
unfolding number_loop
stop_again n s h = elim (Bool-cases (num_ends n)) [ inl e ↦ rw e (rw e refl, h) | inr e ↦ rw e tt ]

number_loop-again :
    (n : NumState) (s : Text) → All IsUnit s → Reads (NumberAgain n) (number_loop n s)
unfolding number_loop
number_loop-again n [] h = stop_again n [] h
number_loop-again n (c ∷ s) (hc, hs) = elim (Option-cases (num_step n c)) [
  | inl e ↦ rw e (stop_again n (c ∷ s) (hc, hs))
  | inr (n', e) ↦ rw e (longer n' (number_loop n' s) e (number_loop-again n' s hs))
]
  where
    longer :
        (n' : NumState) (r : Parsed Text)
        → num_step n c ≡ some n'
        → Reads (NumberAgain n') r
        → Reads (NumberAgain n) (prepend c r)
    longer n' (ok (t, rest)) e (again, hr) = (rw (e, again) refl, hr)
    longer n' (err x) e h = tt

pub number_loop-Reads : (s : Text) → All IsUnit s → Reads IsNumber (number_loop begin s)
number_loop-Reads s h = number_loop-again begin s h
