-- ===== src/Json/Tokens.antt =====
-- What the token readers of `JSON.parse` make of what `JSON.stringify` wrote.
use kxco_post_quantum.Prelude.{
  ℕ, ◌≡◌, ◌⊎◌, refl, ap, true, false, Bool-cases, Option-cases, inl, inr, [], ◌∷◌, ◌++◌, none,
  arith, All, Text, ok, err,
}
use mathlib.Core.List.{append_assoc}
use kxco_post_quantum.Json.Quote.{quote_from}
use kxco_post_quantum.Json.Quote.Laws.{IsUnit, string_loop-quote_from}
use kxco_post_quantum.Json.Print.{quote}
use kxco_post_quantum.Json.Scan.{
  syntax_error, Parsed, is_space, skip_space, expect, prepend, NumState, begin, num_step, num_ends,
  num_stop, number_loop,
}
use kxco_post_quantum.Json.Parse.{parse_name}

-- A character that closes a value: a comma, a closing bracket or a line break.
abbrev pub IsCloser : ℕ → Type 0
IsCloser c = (c ≡ b',') ⊎ (c ≡ b']') ⊎ (c ≡ b'}') ⊎ (c ≡ b'\n')

-- What may follow a value in a text that was written.
abbrev pub Closes : Text → Type 0
Closes [] = Unit {0}
Closes (c ∷ s) = IsCloser c

-- The literal of a number.
abbrev pub IsNumber : Text → Type 0
IsNumber n = number_loop begin n ≡ ok (n, [])

num_step-closer : (n : NumState) (c : ℕ) → IsCloser c → num_step n c ≡ none
unfolding num_step
num_step-closer n c (inl e) = rw e (comma n)
  where
    comma : (m : NumState) → num_step m b',' ≡ none
    comma m = ground arith
num_step-closer n c (inr (inl e)) = rw e (bracket n)
  where
    bracket : (m : NumState) → num_step m b']' ≡ none
    bracket m = ground arith
num_step-closer n c (inr (inr (inl e))) = rw e (brace n)
  where
    brace : (m : NumState) → num_step m b'}' ≡ none
    brace m = ground arith
num_step-closer n c (inr (inr (inr e))) = rw e (line n)
  where
    line : (m : NumState) → num_step m b'\n' ≡ none
    line m = ground arith

stop_ends : (n : NumState) → num_stop n [] ≡ ok ([], []) → num_ends n ≡ true
stop_ends n h = ground arith

number_end :
    (n : NumState) (rest : Text)
    → num_ends n ≡ true
    → Closes rest
    → number_loop n rest ≡ ok ([], rest)
unfolding number_loop
number_end n [] h close = rw h refl
number_end n (c ∷ rest) h close = rw (num_step-closer n c close, h) refl

pub prepend_back :
    (c : ℕ) (r : Parsed Text) (s : Text) → prepend c r ≡ ok (c ∷ s, []) → r ≡ ok (s, [])
prepend_back c (ok (t, rest)) s h = cc
prepend_back c (err e) s h = cc

pub stop_short : (n : NumState) (c : ℕ) (s : Text) → num_stop n (c ∷ s) ≡ ok (c ∷ s, []) → ⊥
stop_short n c s h = elim (Bool-cases (num_ends n)) [
  | inl e ↦ nothing (rw e at h)
  | inr e ↦ refused (rw e at h)
]
  where
    nothing : ◌≡◌ {A = Parsed Text} (ok ([], c ∷ s)) (ok (c ∷ s, [])) → ⊥
    nothing p = cc

    refused : ◌≡◌ {A = Parsed Text} (err syntax_error) (ok (c ∷ s, [])) → ⊥
    refused p = cc

number_on :
    (n : NumState) (s rest : Text)
    → number_loop n s ≡ ok (s, [])
    → Closes rest
    → number_loop n (s ++ rest) ≡ ok (s, rest)
unfolding number_loop
number_on n [] rest h close = number_end n rest (stop_ends n h) close
number_on n (c ∷ s) rest h close = elim (Option-cases (num_step n c)) [
  | inl e ↦ absurd (stop_short n c s (rw e at h))
  | inr (n', e) ↦ rw e (ap (prepend c) (number_on n' s rest (prepend_back c _ s (rw e at h)) close))
]

-- A number reads back from its literal.
pub number_loop-literal :
    (n rest : Text) → IsNumber n → Closes rest → number_loop begin (n ++ rest) ≡ ok (n, rest)
number_loop-literal n rest h close = number_on begin n rest h close

pub skip_solid : (c : ℕ) (s : Text) → is_space c ≡ false → skip_space (c ∷ s) ≡ c ∷ s
unfolding skip_space
skip_solid c s h = rw h refl

-- A name reads back with its colon.
pub parse_name-quote :
    (k rest : Text) → All IsUnit k → parse_name (quote k ++ b':' ∷ rest) ≡ ok (k, rest)
unfolding parse_name expect skip_space quote
parse_name-quote k rest h =
    rw
      (
        append_assoc (quote_from none k) (b'"' ∷ []) (b':' ∷ rest),
        string_loop-quote_from k (b':' ∷ rest) h,
      )
      refl
