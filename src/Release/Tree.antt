-- ===== src/Release/Tree.antt =====
-- A file written into a directory, as the walk over the directory sees it.
use kxco_post_quantum.Prelude.{
  ◌≡◌, refl, sym, ap, ◌∙◌, Bool, true, false, not, ◌&&◌, Bool-cases, inl, inr, List, [], ◌∷◌, ◌++◌,
  Option, none, some, any, ◌==◌, Text, Bytes, text_eq, text_eq_iff,
}
use mathlib.Core.Path.{subst}
use mathlib.Core.List.{append_assoc}
use kxco_post_quantum.Fips.Files.{
  Entry, Entries, file, directory, no_entries, entry, Found, files_in, files_of, read_file,
}
use kxco_post_quantum.Fips.Integrity.{manifest_name, signature_name, present}
use kxco_post_quantum.Release.Disk.{put, write_file}

-- The two directories that a write lies between.
pub data Writes (n : Text) (bytes : Bytes) : Entries → Entries → Type 0 where
  added : Writes n bytes no_entries (entry (file n bytes) no_entries)
  replaced :
      {content : Bytes} {es : Entries}
      → Writes n bytes (entry (file n content) es) (entry (file n bytes) es)
  behind_file :
      {m : Text} {content : Bytes} {es es' : Entries}
      → text_eq m n ≡ false
      → Writes n bytes es es'
      → Writes n bytes (entry (file m content) es) (entry (file m content) es')
  behind_directory :
      {m : Text} {inner es es' : Entries}
      → Writes n bytes es es'
      → Writes n bytes (entry (directory m inner) es) (entry (directory m inner) es')

put-eq-some :
    (e : Entry) (o : Option Entries) (dir : Entries)
    → put e o ≡ some dir
    → (es : Entries) × (o ≡ some es) × (entry e es ≡ dir)
put-eq-some e none dir h = cc
put-eq-some e (some es) dir h = (es, refl, some-injective h)
  where
    some-injective : {a b : Entries} → some a ≡ some b → a ≡ b
    some-injective p = cc

some_same : {a b : Entries} → some a ≡ some b → a ≡ b
some_same p = cc

pub write_file-Writes :
    (n : Text) (bytes : Bytes) (dir dir' : Entries)
    → write_file n bytes dir ≡ some dir'
    → Writes n bytes dir dir'
unfolding write_file
write_file-Writes n bytes no_entries dir' h = subst (Writes n bytes no_entries) (some_same h) added
write_file-Writes n bytes (entry (file m content) es) dir' h = elim (Bool-cases (text_eq m n)) [
  | inl e ↦
      subst (λ x. Writes n bytes (entry (file x content) es) dir') (sym ((text_eq_iff m n).0 e))
        (subst (Writes n bytes (entry (file n content) es)) (some_same (rw e at h)) replaced)
  | inr e ↦
      let (es', r, same) = put-eq-some (file m content) (write_file n bytes es) dir' (rw e at h) in
      subst (Writes n bytes _) same (behind_file e (write_file-Writes n bytes es es' r))
]
write_file-Writes n bytes (entry (directory m inner) es) dir' h = elim (Bool-cases (text_eq m n)) [
  | inl e ↦ absurd (refused (rw e at h))
  | inr e ↦
      let (es', r, same) =
        put-eq-some (directory m inner) (write_file n bytes es) dir' (rw e at h) in
      subst (Writes n bytes _) same (behind_directory (write_file-Writes n bytes es es' r))
]
  where
    refused : ◌≡◌ {A = Option Entries} none (some dir') → ⊥
    refused p = cc

abbrev pub has_slash : Text → Bool
has_slash s = any (λ c. c == b'/') s

slash_first : (s t : Text) → has_slash s ≡ true → has_slash (s ++ t) ≡ true
slash_first [] t h = cc
slash_first (c ∷ s) t h = elim (Bool-cases (c == b'/')) [
  | inl e ↦ rw e refl
  | inr e ↦ rw e (slash_first s t (rw e at h))
]

slash_last : (s : Text) → has_slash (s ++ b'/' ∷ []) ≡ true
slash_last [] = refl
slash_last (c ∷ s) = elim (Bool-cases (c == b'/')) [
  | inl e ↦ rw e refl
  | inr e ↦ rw e (slash_last s)
]

slash_end : (s t : Text) → has_slash (s ++ (t ++ b'/' ∷ [])) ≡ true
slash_end s t = ap has_slash (sym (append_assoc s t (b'/' ∷ []))) ∙ slash_last (s ++ t)

other_text : (s n : Text) → has_slash s ≡ true → has_slash n ≡ false → text_eq s n ≡ false
other_text s n hs hn = elim (Bool-cases (text_eq s n)) [
  | inl e ↦ absurd (differ (subst (λ x. has_slash x ≡ true) ((text_eq_iff s n).0 e) hs))
  | inr e ↦ e
]
  where
    differ : has_slash n ≡ true → ⊥
    differ h = cc

read_miss :
    (p : Text) (fs gs : List Found)
    → read_file p fs ≡ none
    → read_file p (fs ++ gs) ≡ read_file p gs
unfolding read_file
read_miss p [] gs h = refl
read_miss p (f ∷ fs) gs h = elim (Bool-cases (text_eq f.path p)) [
  | inl e ↦ cc (rw e at h)
  | inr e ↦ rw e (read_miss p fs gs (rw e at h))
]

read_behind :
    (p : Text) (fs gs hs : List Found)
    → read_file p gs ≡ read_file p hs
    → read_file p (fs ++ gs) ≡ read_file p (fs ++ hs)
unfolding read_file
read_behind p [] gs hs e = e
read_behind p (f ∷ fs) gs hs e = rw (read_behind p fs gs hs e) refl

present_behind :
    (fs gs hs : List Found) → present gs ≡ present hs → present (fs ++ gs) ≡ present (fs ++ hs)
unfolding present
present_behind [] gs hs e = e
present_behind (f ∷ fs) gs hs e = rw (present_behind fs gs hs e) refl

-- A name without a slash is no path below a directory.
read_below :
    (n : Text)
    → has_slash n ≡ false
    → (es : Entries) (prefix : Text) → has_slash prefix ≡ true
    → read_file n (files_in prefix es) ≡ none
unfolding read_file files_in files_of
read_below n hn es =
    elim es
      as (λ e.
        (prefix : Text) → has_slash prefix ≡ true → read_file n (files_of prefix e) ≡ none) (λ es.
          (prefix : Text) → has_slash prefix ≡ true → read_file n (files_in prefix es) ≡ none) [
            | file m content ↦
                λ prefix h. rw (other_text (prefix ++ m) n (slash_first prefix m h) hn) refl
            | directory m (inner → ih) ↦ λ prefix h. ih _ (slash_end prefix m)
            | no_entries ↦ λ prefix h. refl
            | entry (e → he) (es → hes) ↦
                λ prefix h. read_miss n (files_of prefix e) _ (he prefix h) ∙ hes prefix h
          ]

pub Writes-read :
    (n : Text) (bytes : Bytes) (dir dir' : Entries)
    → has_slash n ≡ false
    → Writes n bytes dir dir'
    → read_file n (files_in [] dir') ≡ some bytes
unfolding read_file files_in files_of
Writes-read n bytes _ _ hn added = rw ((text_eq_iff n n).1 refl) refl
Writes-read n bytes _ _ hn replaced = rw ((text_eq_iff n n).1 refl) refl
Writes-read n bytes _ _ hn (behind_file e w) = rw e (Writes-read n bytes _ _ hn w)
Writes-read n bytes _ _ hn (behind_directory {m} {inner} w) =
    read_miss n (files_in (m ++ b'/' ∷ []) inner) _
      (read_below n hn inner (m ++ b'/' ∷ []) (slash_last m))
    ∙ Writes-read n bytes _ _ hn w

pub Writes-other :
    (n p : Text) (bytes : Bytes) (dir dir' : Entries)
    → text_eq n p ≡ false
    → Writes n bytes dir dir'
    → read_file p (files_in [] dir') ≡ read_file p (files_in [] dir)
unfolding read_file files_in files_of
Writes-other n p bytes _ _ e added = rw e refl
Writes-other n p bytes _ _ e replaced = rw e refl
Writes-other n p bytes _ _ e (behind_file h w) = rw (Writes-other n p bytes _ _ e w) refl
Writes-other n p bytes _ _ e (behind_directory {m} {inner} w) =
    read_behind p (files_in (m ++ b'/' ∷ []) inner) _ _ (Writes-other n p bytes _ _ e w)

-- The names that the manifest leaves out.
abbrev pub is_listed : Text → Bool
is_listed n = not (text_eq n manifest_name) && not (text_eq n signature_name)

pub Writes-present :
    (n : Text) (bytes : Bytes) (dir dir' : Entries)
    → is_listed n ≡ false
    → Writes n bytes dir dir'
    → present (files_in [] dir') ≡ present (files_in [] dir)
unfolding present files_in files_of
Writes-present n bytes _ _ h added = rw h refl
Writes-present n bytes _ _ h replaced = rw h refl
Writes-present n bytes _ _ h (behind_file e w) = rw (Writes-present n bytes _ _ h w) refl
Writes-present n bytes _ _ h (behind_directory {m} {inner} w) =
    present_behind (files_in (m ++ b'/' ∷ []) inner) _ _ (Writes-present n bytes _ _ h w)
