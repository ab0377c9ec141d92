-- ===== src/Codec/Base64/Laws.antt =====
-- base64url: both paths write the same text, and what is written is read back.
use kxco_post_quantum.Prelude.{
  ℕ, ◌+◌, ◌-◌, ◌%◌, ◌<◌, ◌≡◌, refl, true, false, [], ◌∷◌, arith, ◌==◌, if◌then◌else◌, length, All,
  Bytes, IsByte,
}
use kxco_post_quantum.Codec.Base64.{
  sextets, octets, std_char, url_char, is_std, std_value, pad_count, is_space,
}

abbrev pub IsSextet : ℕ → Type 0
IsSextet v = v < 64

pub sextets-IsSextet : (bs : Bytes) → All IsByte bs → All IsSextet (sextets bs)
sextets-IsSextet [] h = unfold sextets in tt
sextets-IsSextet (a ∷ []) h = unfold sextets in omega arith
sextets-IsSextet (a ∷ b ∷ []) h = unfold sextets in omega arith
sextets-IsSextet (a ∷ b ∷ c ∷ r) (ha, (hb, (hc, hr))) = step (sextets-IsSextet r hr)
  where
    step : All IsSextet (sextets r) → All IsSextet (sextets (a ∷ b ∷ c ∷ r))
    step k = unfold sextets in (omega arith, (omega arith, (omega arith, (omega arith, k))))

pub octets-sextets : (bs : Bytes) → All IsByte bs → octets (sextets bs) ≡ bs
unfolding octets sextets
octets-sextets [] h = refl
octets-sextets (a ∷ []) h = ground arith
octets-sextets (a ∷ b ∷ []) h = ground arith
octets-sextets (a ∷ b ∷ c ∷ r) h = ground (arith, octets-sextets r h.1.1.1)

-- The padding makes the groups a multiple of four.
pub sextets_pad : (bs : Bytes) → (4 - length (sextets bs) % 4) % 4 ≡ pad_count bs
unfolding sextets
sextets_pad [] = refl
sextets_pad (a ∷ []) = refl
sextets_pad (a ∷ b ∷ []) = refl
sextets_pad (a ∷ b ∷ c ∷ r) = omega (arith, sextets_pad r)

pub length-sextets : (bs : Bytes) → (length (sextets bs) + pad_count bs) % 4 ≡ 0
unfolding sextets
length-sextets [] = refl
length-sextets (a ∷ []) = refl
length-sextets (a ∷ b ∷ []) = refl
length-sextets (a ∷ b ∷ c ∷ r) = omega (arith, length-sextets r)

-- What the two replacements make of each character, in both directions.
pub replaced_char :
    (v : ℕ)
    → v < 64
    → (if (if std_char v == b'+' then b'-' else std_char v) == b'/'
        then b'_'
        else if std_char v == b'+'
        then b'-'
        else std_char v)
      ≡ url_char v
unfolding std_char url_char
replaced_char v h = ground arith

pub restored_char :
    (v : ℕ)
    → v < 64
    → (if (if url_char v == b'-' then b'+' else url_char v) == b'_'
        then b'/'
        else if url_char v == b'-'
        then b'+'
        else url_char v)
      ≡ std_char v
unfolding std_char url_char
restored_char v h = ground arith

pub url_char-ne-eq : (v : ℕ) → v < 64 → (url_char v == b'=') ≡ false
unfolding url_char
url_char-ne-eq v h = ground arith

pub std_char-ne-eq : (v : ℕ) → v < 64 → (std_char v == b'=') ≡ false
unfolding std_char
std_char-ne-eq v h = ground arith

pub std_char-not_space : (v : ℕ) → v < 64 → is_space (std_char v) ≡ false
unfolding std_char
std_char-not_space v h = ground arith

pub std_char-is_std : (v : ℕ) → v < 64 → is_std (std_char v) ≡ true
unfolding std_char is_std
std_char-is_std v h = ground arith

pub std_value-std_char : (v : ℕ) → v < 64 → std_value (std_char v) ≡ v
unfolding std_char std_value
std_value-std_char v h = ground arith
