-- ===== src/Json/Total.antt =====
-- `JSON.parse` never runs out of the fuel that it starts with.
use kxco_post_quantum.Prelude.{
  ℕ, zero, suc, ◌+◌, ◌*◌, ◌<◌, ◌≤◌, ◌≡◌, ◌⊎◌, refl, Bool, true, false, Bool-cases, inl, inr, [],
  ◌∷◌, arith, ◌==◌, if◌then◌else◌, length, Text, Result, ok, err, ◌>>=◌,
}
use mathlib.Core.List.{tail}
use kxco_post_quantum.Json.{Json, Elements, Members, string, array, object, number}
use kxco_post_quantum.Json.Scan.{
  ParseError, syntax_error, out_of_fuel, Parsed, skip_space, expect, starts, plain, string_loop,
  begin, number_loop,
}
use kxco_post_quantum.Json.Parse.{
  literal, parse_lead, separator, parse_name, parse_value, parse_elements, parse_members, parse,
  finish_parse,
}
use kxco_post_quantum.Json.Progress.{
  Leaves, Leaves-grow, Leaves-then, Keeps-then, map_parsed-Leaves, length-skip_space,
  string_loop-Leaves, number_loop-Leaves, separator-Keeps, skip_expect-Keeps, literal-Leaves,
}

either {ℓ} :
    {A : Type ℓ} (b : Bool) (n : ℕ) (x y : Parsed A)
    → Leaves n x
    → Leaves n y
    → Leaves n (if b then x else y)
either true n x y hx hy = hx
either false n x y hx hy = hy

parse_lead-Leaves :
    (elements : Text → Parsed Elements) (members : Text → Parsed Members) (n : ℕ) (s : Text)
    → length s ≤ n
    → ((t : Text) → length t < n → Leaves n (elements t))
    → ((t : Text) → length t < n → Leaves n (members t))
    → Leaves n (parse_lead elements members s)
unfolding parse_lead
parse_lead-Leaves elements members n [] h he hm = tt
parse_lead-Leaves elements members n (c ∷ s) h he hm =
    let word : (d : ℕ) (p : Text) (v : Json) → Leaves n (literal (d ∷ p) v (c ∷ s)) =
      λ d p v. Leaves-grow _ n (literal (d ∷ p) v (c ∷ s)) h (literal-Leaves d p v c s) in
    either (c == b'"') n _ _
      (map_parsed-Leaves string n _
        (Leaves-grow _ n (string_loop plain s) (omega arith) (string_loop-Leaves plain s)))
      (either (c == b'[') n _ _ (map_parsed-Leaves array n _ (he s (omega arith))) (
        either (c == b'{') n _ _ (map_parsed-Leaves object n _ (hm s (omega arith))) (
          either (c == b'n') n _ _ (word _ _ _) (
            either (c == b't') n _ _ (word _ _ _) (
              either (c == b'f') n _ _ (word _ _ _) (
                map_parsed-Leaves number n _
                  (Leaves-grow _ n (number_loop begin (c ∷ s)) h (number_loop-Leaves (c ∷ s)))))))))

parse_name-Leaves : (s : Text) → Leaves (length s) (parse_name s)
unfolding parse_name
parse_name-Leaves s =
    Keeps-then (length s) _ (expect (b'"' ∷ []) (skip_space s)) _ (skip_expect-Keeps _ s) (λ t h.
      Leaves-then (length t) _ (string_loop plain t) _ (string_loop-Leaves plain t) (λ k u hu.
        Keeps-then (length u) _ (expect (b':' ∷ []) (skip_space u)) (λ w. ok (k, w))
          (skip_expect-Keeps _ u) (λ w hw. omega arith)))

closed : (c : ℕ) (s : Text) → starts c s ≡ true → length (tail s) < length s
unfolding starts
closed c [] h = cc
closed c (d ∷ s) h = omega arith

abbrev ValueEnds : ℕ → Type 0
ValueEnds f = (s : Text) → 2 * length s < f → Leaves (length s) (parse_value f s)

abbrev ElementsEnd : ℕ → Type 0
ElementsEnd f =
    (first : Bool) (s : Text) → 2 * length s + 1 < f → Leaves (length s) (parse_elements f first s)

abbrev MembersEnd : ℕ → Type 0
MembersEnd f =
    (first : Bool) (s : Text) → 2 * length s + 1 < f → Leaves (length s) (parse_members f first s)

value_ends : (f : ℕ) → ElementsEnd f → MembersEnd f → ValueEnds (suc f)
unfolding parse_value
value_ends f he hm s h =
    let shorter = length-skip_space s in
    parse_lead-Leaves _ _ (length s) (skip_space s) shorter
      (λ t k. Leaves-grow _ _ (parse_elements f true t) (omega arith) (he true t (omega arith)))
      (λ t k. Leaves-grow _ _ (parse_members f true t) (omega arith) (hm true t (omega arith)))

elements_end : (f : ℕ) → ValueEnds f → ElementsEnd f → ElementsEnd (suc f)
unfolding parse_elements
elements_end f hv he first s h =
    let shorter = length-skip_space s in
    elim (Bool-cases (starts b']' (skip_space s))) [
      | inl e ↦ let less = closed b']' (skip_space s) e in rw e (omega arith)
      | inr e ↦ rw e (
          Keeps-then (length s) (length s) (separator first s) _ (separator-Keeps first s) (λ t ht.
            Leaves-then (length t) (length s) (parse_value f t) _ (hv t (omega arith)) (λ v u hu.
              Leaves-then (length u) (length s) (parse_elements f false u) _
                (he false u (omega arith)) (λ es w hw. omega arith))))
    ]

members_end : (f : ℕ) → ValueEnds f → MembersEnd f → MembersEnd (suc f)
unfolding parse_members
members_end f hv hm first s h =
    let shorter = length-skip_space s in
    elim (Bool-cases (starts b'}' (skip_space s))) [
      | inl e ↦ let less = closed b'}' (skip_space s) e in rw e (omega arith)
      | inr e ↦ rw e (
          Keeps-then (length s) (length s) (separator first s) _ (separator-Keeps first s) (λ t ht.
            Leaves-then (length t) (length s) (parse_name t) _ (parse_name-Leaves t) (λ k u hu.
              Leaves-then (length u) (length s) (parse_value f u) _ (hv u (omega arith)) (λ v w hw.
                Leaves-then (length w) (length s) (parse_members f false w) _
                  (hm false w (omega arith)) (λ ms x hx. omega arith)))))
    ]

all_end : (f : ℕ) → ValueEnds f × ElementsEnd f × MembersEnd f
all_end zero = (
  λ s h. absurd (omega arith),
  λ first s h. absurd (omega arith),
  λ first s h. absurd (omega arith),
)
all_end (suc f) =
    let (hv, he, hm) = all_end f in (value_ends f he hm, elements_end f hv he, members_end f hv hm)

abbrev pub IsDecided : Result ParseError Json → Type 0
IsDecided r = ((v : Json) × (r ≡ ok v)) ⊎ (r ≡ err syntax_error)

finish-IsDecided : (v : Json) (rest : Text) → IsDecided (finish_parse v rest)
finish-IsDecided v [] = inl (v, refl)
finish-IsDecided v (c ∷ s) = inr refl

-- The fuel that `JSON.parse` starts with is enough for every text, well formed or not: what comes out
-- is a value or a syntax error.
pub parse-IsDecided : (s : Text) → IsDecided (parse s)
unfolding parse
parse-IsDecided s =
    finished (parse_value (2 * length s + 1) s) ((all_end (2 * length s + 1)).0 s (omega arith))
  where
    finished :
        (r : Parsed Json)
        → Leaves (length s) r
        → IsDecided (r >>= λ p. finish_parse p.0 (skip_space p.1))
    finished (ok (v, rest)) h = finish-IsDecided v (skip_space rest)
    finished (err syntax_error) h = inr refl
    finished (err out_of_fuel) h = absurd h
