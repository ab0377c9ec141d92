-- ===== src/Json/White.antt =====
-- The white space that `JSON.stringify` writes, and `JSON.parse` skips.
use kxco_post_quantum.Prelude.{
  ℕ, zero, suc, ◌*◌, ◌≡◌, refl, true, [], ◌∷◌, ◌++◌, replicate, All, Text,
}
use kxco_post_quantum.Json.Print.{Layout, compact, indented, gap, after_colon}
use kxco_post_quantum.Json.Scan.{is_space, skip_space}
use kxco_post_quantum.Json.Parse.{parse_name, parse_value}

abbrev pub IsWhite : ℕ → Type 0
IsWhite c = is_space c ≡ true

pub skip_white : (g s : Text) → All IsWhite g → skip_space (g ++ s) ≡ skip_space s
unfolding skip_space
skip_white [] s h = refl
skip_white (c ∷ g) s (h, hs) = rw h (skip_white g s hs)

pub parse_value_white :
    (f : ℕ) (g s : Text) → All IsWhite g → parse_value f (g ++ s) ≡ parse_value f s
unfolding parse_value
parse_value_white zero g s h = refl
parse_value_white (suc f) g s h = rw (skip_white g s h) refl

pub parse_name_white : (g s : Text) → All IsWhite g → parse_name (g ++ s) ≡ parse_name s
unfolding parse_name
parse_name_white g s h = rw (skip_white g s h) refl

spaces : (n : ℕ) → All IsWhite (replicate n b' ')
spaces zero = tt
spaces (suc n) = (refl, spaces n)

pub gap-IsWhite : (l : Layout) (d : ℕ) → All IsWhite (gap l d)
unfolding gap
gap-IsWhite compact d = tt
gap-IsWhite indented d = (refl, spaces (2 * d))

pub after_colon-IsWhite : (l : Layout) → All IsWhite (after_colon l)
unfolding after_colon
after_colon-IsWhite compact = tt
after_colon-IsWhite indented = (refl, tt)
