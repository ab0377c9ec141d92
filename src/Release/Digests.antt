-- ===== src/Release/Digests.antt =====
-- The object of digests that the manifest script collects passes the FIPS module's check of the files.
use kxco_post_quantum.Prelude.{
  ◌≡◌, refl, sym, ap, ◌∙◌, Bool, true, false, ◌||◌, Bool-cases, inl, inr, List, [], ◌∷◌, some, All,
  arith, Text, Bytes, text_eq, text_eq_iff, ok, require_some, ok-injective, >>=-eq-ok,
}
use mathlib.Core.Path.{subst}
use kxco_post_quantum.Codec.Hex.{bytes_to_hex}
use kxco_post_quantum.Json.{Json, Members, object, end_members, member, has_own}
use kxco_post_quantum.Json.Quote.Laws.{IsUnit}
use kxco_post_quantum.Json.Canonical.{IsCanonical, MembersAreCanonical}
use kxco_post_quantum.Jws.Segments.Laws.{some_required}
use kxco_post_quantum.Backend.{text_leb, insert, sort}
use kxco_post_quantum.Fips.Files.{Found, read_file}
use kxco_post_quantum.Fips.Integrity.{
  Trust, includes, has_own_file, none_missing, none_extra, check_digests, listed_members,
}
use kxco_post_quantum.Release.Manifest.{cannot_read, proto, set_own, digest_of, digest_files}
use kxco_post_quantum.Release.Own.{
  Each, set_own-Each, set_own-keeps, set_own-own, set_own-canonical,
}

swap : (a b c : Bool) → (b || (a || c)) ≡ (a || (b || c))
swap a b c = ground arith

includes-insert :
    (f g : Text) (gs : List Text) → includes (insert g gs) f ≡ (text_eq g f || includes gs f)
unfolding insert
includes-insert f g [] = refl
includes-insert f g (h ∷ gs) = elim (Bool-cases (text_leb g h)) [
  | inl e ↦ rw e refl
  | inr e ↦ rw (e, includes-insert f g gs) (swap (text_eq g f) (text_eq h f) (includes gs f))
]

-- Sorting keeps the names.
pub includes-sort : (f : Text) (gs : List Text) → includes (sort gs) f ≡ includes gs f
unfolding sort
includes-sort f [] = refl
includes-sort f (g ∷ gs) =
    includes-insert f g (sort gs) ∙ ap (λ b. text_eq g f || b) (includes-sort f gs)

module _ (P : Text → Type 0) where
  insert-All : (g : Text) (gs : List Text) → P g → All P gs → All P (insert g gs)
  unfolding insert
  insert-All g [] p h = (p, tt)
  insert-All g (f ∷ gs) p (h, hs) = elim (Bool-cases (text_leb g f)) [
    | inl e ↦ rw e (p, (h, hs))
    | inr e ↦ rw e (h, insert-All g gs p hs)
  ]

  pub sort-All : (gs : List Text) → All P gs → All P (sort gs)
  unfolding sort
  sort-All [] h = tt
  sort-All (g ∷ gs) (h, hs) = insert-All g (sort gs) h (sort-All gs hs)

or_last : (a b : Bool) → b ≡ true → (a || b) ≡ true
or_last a b h = ground arith

all_weaken :
    (g : Text) (gs fs : List Text)
    → All (λ f. includes gs f ≡ true) fs
    → All (λ f. includes (g ∷ gs) f ≡ true) fs
all_weaken g gs [] h = tt
all_weaken g gs (f ∷ fs) (h, hs) = (or_last (text_eq g f) _ h, all_weaken g gs fs hs)

-- Every name of a list is in it.
pub all_included : (gs : List Text) → All (λ f. includes gs f ≡ true) gs
all_included [] = tt
all_included (g ∷ gs) = (rw ((text_eq_iff g g).1 refl) refl, all_weaken g gs gs (all_included gs))

-- A member of the object: its file is in the walk, and its digest is that of the file's content.
abbrev pub HasDigest : (Bytes → Bytes) → List Found → List Text → Text → Json → Type 0
HasDigest sha256 fs paths f v =
    (includes paths f ≡ true)
    × ((content : Bytes) × (read_file f fs ≡ some content) × (v ≡ digest_of sha256 content))

or_cases : (a b : Bool) → (a || b) ≡ true → (a ≡ false) → b ≡ true
or_cases a b h e = ground arith

module _ (sha256 : Bytes → Bytes) (fs : List Found) (paths : List Text) where
  -- The loop over some of the paths.
  pub digest_files-Each :
      (todo : List Text) (files result : Members)
      → All (λ f. includes paths f ≡ true) todo
      → digest_files sha256 fs todo files ≡ ok result
      → Each (HasDigest sha256 fs paths) files
      → Each (HasDigest sha256 fs paths) result
  unfolding digest_files
  digest_files-Each [] files result hs e h =
      subst (Each (HasDigest sha256 fs paths)) (ok-injective e) h
  digest_files-Each (f ∷ todo) files result (hf, hs) e h =
      let (content, r, rest) = >>=-eq-ok (require_some (read_file f fs) (cannot_read f)) _ e in
      digest_files-Each todo (set_own f (digest_of sha256 content) files) result hs rest (
        set_own-Each (HasDigest sha256 fs paths) f (digest_of sha256 content)
          (hf, (content, some_required _ _ content r, refl)) files h)

  keeps_own :
      (j : Text) (todo : List Text) (files result : Members)
      → digest_files sha256 fs todo files ≡ ok result
      → has_own j files ≡ true
      → has_own j result ≡ true
  unfolding digest_files
  keeps_own j [] files result e h = subst (λ ms. has_own j ms ≡ true) (ok-injective e) h
  keeps_own j (f ∷ todo) files result e h =
      let (content, r, rest) = >>=-eq-ok (require_some (read_file f fs) (cannot_read f)) _ e in
      keeps_own j todo _ result rest (set_own-keeps j f (digest_of sha256 content) files h)

  -- Every path of the loop is an own name afterwards, but for `__proto__`.
  pub digest_files-own :
      (j : Text) (todo : List Text) (files result : Members)
      → text_eq j proto ≡ false
      → includes todo j ≡ true
      → digest_files sha256 fs todo files ≡ ok result
      → has_own j result ≡ true
  unfolding digest_files
  digest_files-own j [] files result p i e = cc
  digest_files-own j (f ∷ todo) files result p i e =
      let (content, r, rest) = >>=-eq-ok (require_some (read_file f fs) (cannot_read f)) _ e in
      elim (Bool-cases (text_eq f j)) [
        | inl same ↦ keeps_own j todo _ result rest (
            subst (λ x. has_own x (set_own f (digest_of sha256 content) files) ≡ true)
              ((text_eq_iff f j).0 same)
              (set_own-own f (digest_of sha256 content) files
                (subst (λ x. text_eq x proto ≡ false) (sym ((text_eq_iff f j).0 same)) p)))
        | inr other ↦ digest_files-own j todo _ result p (or_cases _ _ i other) rest
      ]

  -- The object survives the text, where the names and the digests are code units.
  pub digest_files-canonical :
      (todo : List Text) (files result : Members)
      → All (All IsUnit) todo
      → ((content : Bytes) → All IsUnit (bytes_to_hex (sha256 content)))
      → digest_files sha256 fs todo files ≡ ok result
      → MembersAreCanonical files
      → MembersAreCanonical result
  unfolding digest_files
  digest_files-canonical [] files result hs units e h = subst MembersAreCanonical (ok-injective e) h
  digest_files-canonical (f ∷ todo) files result (hf, hs) units e h =
      let (content, r, rest) = >>=-eq-ok (require_some (read_file f fs) (cannot_read f)) _ e in
      digest_files-canonical todo (set_own f (digest_of sha256 content) files) result hs units rest
        (set_own-canonical f (digest_of sha256 content) hf (unfold IsCanonical in units content)
          files h)

-- Back to the checks of the integrity test.
pub none_missing-Each :
    (sha256 : Bytes → Bytes) (fs : List Found) (paths : List Text) (ms : Members)
    → Each (HasDigest sha256 fs paths) ms
    → none_missing ms paths ≡ true
unfolding none_missing
none_missing-Each sha256 fs paths end_members h = refl
none_missing-Each sha256 fs paths (member f v ms) ((i, rest), hs) =
    rw (i, none_missing-Each sha256 fs paths ms hs) refl

pub none_extra-own :
    (fs : List Text) (files : Members)
    → All (λ f. has_own f files ≡ true) fs
    → none_extra fs (some (object files)) ≡ ok true
unfolding none_extra has_own_file listed_members
none_extra-own [] files h = refl
none_extra-own (f ∷ fs) files (h, hs) = rw (h, none_extra-own fs files hs) refl

pub check_digests-Each :
    (t : Trust) (sha256 : Bytes → Bytes) (gs fs : List Found) (paths : List Text) (ms : Members)
    → ((content : Bytes) → sha256 content ≡ t.sha256 content)
    → ((f : Text) → includes paths f ≡ true → read_file f gs ≡ read_file f fs)
    → Each (HasDigest sha256 fs paths) ms
    → check_digests t gs ms ≡ ok tt
unfolding check_digests
check_digests-Each t sha256 gs fs paths end_members agree same h = refl
check_digests-Each t sha256 gs fs paths (member f v ms) agree same ((i, (content, r, e)), hs) =
    rw
      (
        same f i ∙ r,
        e,
        agree content,
        (text_eq_iff _ (bytes_to_hex (t.sha256 content))).1 refl,
        check_digests-Each t sha256 gs fs paths ms agree same hs,
      )
      refl
