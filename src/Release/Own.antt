-- ===== src/Release/Own.antt =====
-- What `o[k] = v` makes of an object's own members.
use kxco_post_quantum.Prelude.{
  ◌≡◌, refl, ◌∙◌, Bool, true, false, ◌||◌, Bool-cases, inl, inr, none, All, Text, text_eq,
  text_eq_iff, text_eq_comm, arith,
}
use mathlib.Core.Path.{subst}
use kxco_post_quantum.Json.{Json, Members, end_members, member, get_member, has_own}
use kxco_post_quantum.Json.Quote.Laws.{IsUnit}
use kxco_post_quantum.Json.Canonical.{IsCanonical, MembersAreCanonical}
use kxco_post_quantum.Jws.Index.{own_none}
use kxco_post_quantum.Release.Manifest.{is_before, replace_member, place_member, proto, set_own}

-- A property of every member.
abbrev pub Each : (Text → Json → Type 0) → Members → Type 0
Each P end_members = Unit {0}
Each P (member k v ms) = P k v × Each P ms

module _ (P : Text → Json → Type 0) (k : Text) (v : Json) (p : P k v) where
  replace-Each : (ms : Members) → Each P ms → Each P (replace_member k v ms)
  unfolding replace_member
  replace-Each end_members h = tt
  replace-Each (member j w ms) (h, hs) = elim (Bool-cases (text_eq j k)) [
    | inl e ↦ rw e (subst (λ x. P x v) (sym_text e) p, hs)
    | inr e ↦ rw e (h, replace-Each ms hs)
  ]
    where
      sym_text : text_eq j k ≡ true → k ≡ j
      sym_text e = cc ((text_eq_iff j k).0 e)

  place-Each : (ms : Members) → Each P ms → Each P (place_member k v ms)
  unfolding place_member
  place-Each end_members h = (p, tt)
  place-Each (member j w ms) (h, hs) = elim (Bool-cases (is_before k j)) [
    | inl e ↦ rw e (p, (h, hs))
    | inr e ↦ rw e (h, place-Each ms hs)
  ]

  pub set_own-Each : (ms : Members) → Each P ms → Each P (set_own k v ms)
  unfolding set_own
  set_own-Each ms h = elim (Bool-cases (text_eq k proto)) [
    | inl e ↦ rw e h
    | inr e ↦ elim (Bool-cases (has_own k ms)) [
      | inl o ↦ rw (e, o) (replace-Each ms h)
      | inr o ↦ rw (e, o) (place-Each ms h)
    ]
  ]

-- The names that are own afterwards.
replace-own :
    (j k : Text) (v : Json) (ms : Members) → has_own j (replace_member k v ms) ≡ has_own j ms
unfolding replace_member has_own
replace-own j k v end_members = refl
replace-own j k v (member i w ms) = elim (Bool-cases (text_eq i k)) [
  | inl e ↦ rw e refl
  | inr e ↦ rw (e, replace-own j k v ms) refl
]

swap : (a b c : Bool) → (b || (a || c)) ≡ (a || (b || c))
swap a b c = ground arith

place-own :
    (j k : Text) (v : Json) (ms : Members)
    → has_own j (place_member k v ms) ≡ (text_eq k j || has_own j ms)
unfolding place_member has_own
place-own j k v end_members = refl
place-own j k v (member i w ms) = elim (Bool-cases (is_before k i)) [
  | inl e ↦ rw e refl
  | inr e ↦ rw (e, place-own j k v ms) (swap (text_eq k j) (text_eq i j) (has_own j ms))
]

owned_stays : (a b : Bool) → a ≡ true → (b || a) ≡ true
owned_stays a b h = ground arith

-- What was own stays so.
pub set_own-keeps :
    (j k : Text) (v : Json) (ms : Members) → has_own j ms ≡ true → has_own j (set_own k v ms) ≡ true
unfolding set_own
set_own-keeps j k v ms h = elim (Bool-cases (text_eq k proto)) [
  | inl e ↦ rw e h
  | inr e ↦ elim (Bool-cases (has_own k ms)) [
    | inl o ↦ rw (e, o) (replace-own j k v ms ∙ h)
    | inr o ↦ rw (e, o) (place-own j k v ms ∙ owned_stays _ (text_eq k j) h)
  ]
]

-- The name that is set is own, but for `__proto__`.
pub set_own-own :
    (k : Text) (v : Json) (ms : Members)
    → text_eq k proto ≡ false
    → has_own k (set_own k v ms) ≡ true
unfolding set_own
set_own-own k v ms e = elim (Bool-cases (has_own k ms)) [
  | inl o ↦ rw (e, o) (replace-own k k v ms ∙ o)
  | inr o ↦ rw (e, o) (place-own k k v ms ∙ rw ((text_eq_iff k k).1 refl) refl)
]

not_own : (k : Text) (ms : Members) → get_member k ms ≡ none → has_own k ms ≡ false
unfolding get_member has_own
not_own k end_members h = refl
not_own k (member j v ms) h = elim (Bool-cases (text_eq j k)) [
  | inl e ↦ cc (rw e at h)
  | inr e ↦ rw e (not_own k ms (rw e at h))
]

module _ (k : Text) (v : Json) (units : All IsUnit k) (canonical : IsCanonical v) where
  replace-canonical :
      (ms : Members) → MembersAreCanonical ms → MembersAreCanonical (replace_member k v ms)
  unfolding replace_member MembersAreCanonical
  replace-canonical end_members h = tt
  replace-canonical (member j w ms) (hj, new, hw, hms) = elim (Bool-cases (text_eq j k)) [
    | inl e ↦ rw e (hj, new, canonical, hms)
    | inr e ↦
        rw e
          (hj, own_none j _ (replace-own j k v ms ∙ not_own j ms new), hw, replace-canonical ms hms)
  ]

  place-canonical :
      (ms : Members)
      → has_own k ms ≡ false
      → MembersAreCanonical ms
      → MembersAreCanonical (place_member k v ms)
  unfolding place_member MembersAreCanonical has_own
  place-canonical end_members o h = (units, unfold get_member in refl, canonical, tt)
  place-canonical (member j w ms) o (hj, new, hw, hms) = elim (Bool-cases (is_before k j)) [
    | inl e ↦ rw e (units, own_none k (member j w ms) o, canonical, (hj, new, hw, hms))
    | inr e ↦
        let (apart, o') = neither (text_eq j k) (has_own k ms) o in
        rw e (
          hj,
          own_none j _ (place-own j k v ms ∙ rw (text_eq_comm k j ∙ apart, not_own j ms new) refl),
          hw,
          place-canonical ms o' hms,
        )
  ]
    where
      neither : (a b : Bool) → (a || b) ≡ false → (a ≡ false) × (b ≡ false)
      neither a b h = ground arith

  pub set_own-canonical :
      (ms : Members) → MembersAreCanonical ms → MembersAreCanonical (set_own k v ms)
  unfolding set_own
  set_own-canonical ms h = elim (Bool-cases (text_eq k proto)) [
    | inl e ↦ rw e h
    | inr e ↦ elim (Bool-cases (has_own k ms)) [
      | inl o ↦ rw (e, o) (replace-canonical ms h)
      | inr o ↦ rw (e, o) (place-canonical ms o h)
    ]
  ]
