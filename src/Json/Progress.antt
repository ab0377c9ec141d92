-- ===== src/Json/Progress.antt =====
-- The token readers of `JSON.parse` want no fuel and consume what they read.
use kxco_post_quantum.Prelude.{
  ℕ, suc, ◌<◌, ◌≤◌, Bool, true, false, Bool-cases, inl, inr, [], ◌∷◌, Option-cases, arith, ◌==◌,
  length, Text, Result, ok, err, ◌>>=◌,
}
use kxco_post_quantum.Json.{Json}
use kxco_post_quantum.Json.Scan.{
  ParseError, syntax_error, out_of_fuel, Parsed, is_space, skip_space, expect, Mode, plain, Next,
  finish, bad, go, emit, string_step, string_loop, prepend, advance, NumState, begin, num_step,
  num_ends, num_stop, number_loop,
}
use kxco_post_quantum.Json.Parse.{map_parsed, literal, separator}

-- No want of fuel, and, where the text was read, fewer than `n` characters of it left.
abbrev pub Leaves {ℓ} : {A : Type ℓ} → ℕ → Parsed A → Type 0
Leaves n (ok (a, rest)) = length rest < n
Leaves n (err syntax_error) = Unit {0}
Leaves n (err out_of_fuel) = ⊥

-- The same of a reader that gives only the rest, which may have consumed nothing.
abbrev pub Keeps : ℕ → Result ParseError Text → Type 0
Keeps n (ok rest) = length rest ≤ n
Keeps n (err syntax_error) = Unit {0}
Keeps n (err out_of_fuel) = ⊥

pub Leaves-grow {ℓ} : {A : Type ℓ} (n m : ℕ) (r : Parsed A) → n ≤ m → Leaves n r → Leaves m r
Leaves-grow n m (ok (a, rest)) h k = omega arith
Leaves-grow n m (err syntax_error) h k = tt
Leaves-grow n m (err out_of_fuel) h k = absurd k

-- A chain of readers.
pub Leaves-then {ℓ κ} :
    {A : Type ℓ} {B : Type κ} (n m : ℕ) (r : Parsed A) (k : A → Text → Parsed B)
    → Leaves n r
    → ((a : A) (s : Text) → length s < n → Leaves m (k a s))
    → Leaves m (r >>= λ p. k p.0 p.1)
Leaves-then n m (ok (a, s)) k h next = next a s h
Leaves-then n m (err syntax_error) k h next = tt
Leaves-then n m (err out_of_fuel) k h next = absurd h

pub Keeps-then {κ} :
    {B : Type κ} (n m : ℕ) (r : Result ParseError Text) (k : Text → Parsed B)
    → Keeps n r
    → ((s : Text) → length s ≤ n → Leaves m (k s))
    → Leaves m (r >>= k)
Keeps-then n m (ok s) k h next = next s h
Keeps-then n m (err syntax_error) k h next = tt
Keeps-then n m (err out_of_fuel) k h next = absurd h

pub map_parsed-Leaves {ℓ κ} :
    {A : Type ℓ} {B : Type κ} (g : A → B) (n : ℕ) (r : Parsed A)
    → Leaves n r
    → Leaves n (map_parsed g r)
map_parsed-Leaves g n (ok (a, s)) h = h
map_parsed-Leaves g n (err syntax_error) h = tt
map_parsed-Leaves g n (err out_of_fuel) h = absurd h

pub length-skip_space : (s : Text) → length (skip_space s) ≤ length s
unfolding skip_space
length-skip_space [] = omega arith
length-skip_space (c ∷ s) =
    let ih = length-skip_space s in
    elim (Bool-cases (is_space c)) [ inl e ↦ rw e (omega arith) | inr e ↦ rw e (omega arith) ]

expect-Keeps : (p s : Text) → Keeps (length s) (expect p s)
unfolding expect
expect-Keeps [] s = omega arith
expect-Keeps (c ∷ p) [] = tt
expect-Keeps (c ∷ p) (d ∷ s) = elim (Bool-cases (c == d)) [
  | inl e ↦ rw e (wider (expect p s) (expect-Keeps p s))
  | inr e ↦ rw e tt
]
  where
    wider : (r : Result ParseError Text) → Keeps (length s) r → Keeps (suc (length s)) r
    wider (ok t) h = omega arith
    wider (err syntax_error) h = tt
    wider (err out_of_fuel) h = absurd h

prepend-Leaves : (c n : ℕ) (r : Parsed Text) → Leaves n r → Leaves n (prepend c r)
prepend-Leaves c n (ok (t, rest)) h = h
prepend-Leaves c n (err syntax_error) h = tt
prepend-Leaves c n (err out_of_fuel) h = absurd h

pub string_loop-Leaves : (m : Mode) (s : Text) → Leaves (length s) (string_loop m s)
unfolding string_loop
string_loop-Leaves m [] = tt
string_loop-Leaves m (c ∷ s) =
    step (string_step m c) (λ m'. string_loop m' s) (λ m'. string_loop-Leaves m' s)
  where
    step :
        (n : Next) (more : Mode → Parsed Text)
        → ((m : Mode) → Leaves (length s) (more m))
        → Leaves (suc (length s)) (advance n s more)
    step finish more h = omega arith
    step bad more h = tt
    step (go m) more h = Leaves-grow _ _ (more m) (omega arith) (h m)
    step (emit u) more h =
        prepend-Leaves u _ _ (Leaves-grow _ _ (more plain) (omega arith) (h plain))

num_stop-Leaves : (n : NumState) (s : Text) → Leaves (suc (length s)) (num_stop n s)
num_stop-Leaves n s = elim (Bool-cases (num_ends n)) [
  | inl e ↦ rw e (omega arith)
  | inr e ↦ rw e tt
]

number_rest : (n : NumState) (s : Text) → Leaves (suc (length s)) (number_loop n s)
unfolding number_loop
number_rest n [] = num_stop-Leaves n []
number_rest n (c ∷ s) = elim (Option-cases (num_step n c)) [
  | inl e ↦ rw e (num_stop-Leaves n (c ∷ s))
  | inr (n', e) ↦
      rw e
        (prepend-Leaves c _ _ (Leaves-grow _ _ (number_loop n' s) (omega arith) (number_rest n' s)))
]

begin_stop : (n : ℕ) (s : Text) → Leaves n (num_stop begin s)
unfolding num_ends
begin_stop n s = tt

pub number_loop-Leaves : (s : Text) → Leaves (length s) (number_loop begin s)
unfolding number_loop
number_loop-Leaves [] = begin_stop 0 []
number_loop-Leaves (c ∷ s) = elim (Option-cases (num_step begin c)) [
  | inl e ↦ rw e (begin_stop _ (c ∷ s))
  | inr (n', e) ↦ rw e (prepend-Leaves c _ _ (number_rest n' s))
]

pub skip_expect-Keeps : (p s : Text) → Keeps (length s) (expect p (skip_space s))
skip_expect-Keeps p s =
    shorter _ (length-skip_space s) (expect p (skip_space s)) (expect-Keeps p (skip_space s))
  where
    shorter : (n : ℕ) → n ≤ length s → (r : Result ParseError Text) → Keeps n r → Keeps (length s) r
    shorter n h (ok t) k = omega arith
    shorter n h (err syntax_error) k = tt
    shorter n h (err out_of_fuel) k = absurd k

pub separator-Keeps : (first : Bool) (s : Text) → Keeps (length s) (separator first s)
unfolding separator
separator-Keeps true s = omega arith
separator-Keeps false s = skip_expect-Keeps (b',' ∷ []) s

expect_some : (c : ℕ) (p : Text) (d : ℕ) (s : Text) → Keeps (length s) (expect (c ∷ p) (d ∷ s))
unfolding expect
expect_some c p d s = elim (Bool-cases (c == d)) [
  | inl e ↦ rw e (expect-Keeps p s)
  | inr e ↦ rw e tt
]

pub literal-Leaves :
    (c : ℕ) (p : Text) (v : Json) (d : ℕ) (s : Text)
    → Leaves (suc (length s)) (literal (c ∷ p) v (d ∷ s))
literal-Leaves c p v d s =
    Keeps-then (length s) _ (expect (c ∷ p) (d ∷ s)) (λ rest. ok (v, rest)) (expect_some c p d s)
      (λ t h. omega arith)
