-- ===== src/Codec/Trim/Laws.antt =====
-- What `trim` leaves of a text that ends in a line break.
use kxco_post_quantum.Prelude.{ℕ, ◌≡◌, refl, ap, ◌∙◌, false, [], ◌∷◌, ◌++◌, All, Text}
use kxco_post_quantum.Codec.Trim.{is_trim_space, trim_start, trim_end, trim}

abbrev pub IsSolid : ℕ → Type 0
IsSolid c = is_trim_space c ≡ false

trim_start-solid : (c : ℕ) (s : Text) → IsSolid c → trim_start (c ∷ s) ≡ c ∷ s
unfolding trim_start
trim_start-solid c s h = rw h refl

trim_end-solid : (s : Text) → All IsSolid s → trim_end (s ++ b'\n' ∷ []) ≡ s
unfolding trim_end
trim_end-solid [] h = refl
trim_end-solid (c ∷ s) (hc, hs) = rw hc (ap (λ r. c ∷ r) (trim_end-solid s hs))

-- A line without spaces is what `trim` makes of it with its line break.
pub trim_line : (s : Text) → All IsSolid s → trim (s ++ b'\n' ∷ []) ≡ s
unfolding trim
trim_line [] h = unfold trim_start trim_end in refl
trim_line (c ∷ s) (hc, hs) =
    ap trim_end (trim_start-solid c (s ++ b'\n' ∷ []) hc) ∙ trim_end-solid (c ∷ s) (hc, hs)
