-- ===== src/Codec/Trim.antt =====
-- `String.prototype.trim`, which src/_native.node.js and src/fips/index.js call.
pub mod Laws
use kxco_post_quantum.Prelude.{ℕ, Bool, true, ◌&&◌, ◌||◌, [], ◌∷◌, leb, ◌==◌, if◌then◌else◌, Text}

-- The spaces that `trim` removes.
abbrev pub is_trim_space : ℕ → Bool
is_trim_space c =
    (leb 9 c && leb c 13)
    || c == 32
    || c == 0xa0
    || c == 0x1680
    || (leb 0x2000 c && leb c 0x200a)
    || c == 0x2028
    || c == 0x2029
    || c == 0x202f
    || c == 0x205f
    || c == 0x3000
    || c == 0xfeff

unfoldable pub trim_start : Text → Text
trim_start [] = []
trim_start (c ∷ s) = if is_trim_space c then trim_start s else c ∷ s

abbrev pub all_spaces : Text → Bool
all_spaces [] = true
all_spaces (c ∷ s) = is_trim_space c && all_spaces s

unfoldable pub trim_end : Text → Text
trim_end [] = []
trim_end (c ∷ s) = if is_trim_space c && all_spaces s then [] else c ∷ trim_end s

unfoldable pub trim : Text → Text
unfolding trim_start trim_end
trim s = trim_end (trim_start s)
