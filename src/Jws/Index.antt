-- ===== src/Jws/Index.antt =====
-- The members of a header by the kind of their names, and headers put together from both.
use kxco_post_quantum.Prelude.{
  ◌≡◌, refl, ap, ◌∙◌, Bool, true, false, Bool-cases, inl, inr, none, Text, text_eq, text_eq_iff,
}
use kxco_post_quantum.Json.{Members, end_members, member, get_member, has_own, append_members}
use kxco_post_quantum.Json.Canonical.{MembersAreCanonical}
use kxco_post_quantum.Jws.Sign.{is_index, index_members}

pub absent_stays :
    (b : Bool) (k : Text) (ms : Members)
    → get_member k ms ≡ none
    → get_member k (index_members b ms) ≡ none
unfolding get_member index_members
absent_stays b k end_members h = refl
absent_stays true k (member k' v ms) h = elim (Bool-cases (text_eq k' k)) [
  | inl e ↦ cc (rw e at h)
  | inr e ↦ elim (Bool-cases (is_index k')) [
    | inl i ↦ rw (i, e) (absent_stays true k ms (rw e at h))
    | inr i ↦ rw i (absent_stays true k ms (rw e at h))
  ]
]
absent_stays false k (member k' v ms) h = elim (Bool-cases (text_eq k' k)) [
  | inl e ↦ cc (rw e at h)
  | inr e ↦ elim (Bool-cases (is_index k')) [
    | inl i ↦ rw i (absent_stays false k ms (rw e at h))
    | inr i ↦ rw (i, e) (absent_stays false k ms (rw e at h))
  ]
]

pub canonical_part :
    (b : Bool) (ms : Members) → MembersAreCanonical ms → MembersAreCanonical (index_members b ms)
unfolding index_members MembersAreCanonical
canonical_part b end_members h = tt
canonical_part true (member k v ms) (hk, new, hv, hms) = elim (Bool-cases (is_index k)) [
  | inl i ↦ rw i (hk, absent_stays true k ms new, hv, canonical_part true ms hms)
  | inr i ↦ rw i (canonical_part true ms hms)
]
canonical_part false (member k v ms) (hk, new, hv, hms) = elim (Bool-cases (is_index k)) [
  | inl i ↦ rw i (canonical_part false ms hms)
  | inr i ↦ rw i (hk, absent_stays false k ms new, hv, canonical_part false ms hms)
]

pub get-append :
    (k : Text) (ms ns : Members)
    → get_member k ms ≡ none
    → get_member k (append_members ms ns) ≡ get_member k ns
unfolding get_member append_members
get-append k end_members ns h = refl
get-append k (member k' v ms) ns h = elim (Bool-cases (text_eq k' k)) [
  | inl e ↦ cc (rw e at h)
  | inr e ↦ rw e (get-append k ms ns (rw e at h))
]

-- Every name is an index.
abbrev pub IsIndexed : Members → Type 0
IsIndexed end_members = Unit {0}
IsIndexed (member k v ms) = (is_index k ≡ true) × IsIndexed ms

pub index_part-IsIndexed : (ms : Members) → IsIndexed (index_members true ms)
unfolding index_members
index_part-IsIndexed end_members = tt
index_part-IsIndexed (member k v ms) = elim (Bool-cases (is_index k)) [
  | inl i ↦ rw i (i, index_part-IsIndexed ms)
  | inr i ↦ rw i (index_part-IsIndexed ms)
]

pub no_index :
    (k : Text) (ms : Members) → is_index k ≡ true → get_member k (index_members false ms) ≡ none
unfolding index_members get_member
no_index k end_members h = refl
no_index k (member k' v ms) h = elim (Bool-cases (is_index k')) [
  | inl i ↦ rw i (no_index k ms h)
  | inr i ↦ elim (Bool-cases (text_eq k' k)) [
    | inl e ↦ absurd (clash i (ap is_index ((text_eq_iff k' k).0 e) ∙ h))
    | inr e ↦ rw (i, e) (no_index k ms h)
  ]
]
  where
    clash : is_index k' ≡ false → is_index k' ≡ true → ⊥
    clash p q = cc

pub other_name : (n k : Text) → is_index n ≡ false → is_index k ≡ true → text_eq n k ≡ false
other_name n k p q = elim (Bool-cases (text_eq n k)) [
  | inl e ↦ cc (ap is_index ((text_eq_iff n k).0 e), p, q)
  | inr e ↦ e
]

pub append-canonical :
    (ms ns : Members)
    → IsIndexed ms
    → ((k : Text) → is_index k ≡ true → get_member k ns ≡ none)
    → MembersAreCanonical ms
    → MembersAreCanonical ns
    → MembersAreCanonical (append_members ms ns)
unfolding append_members MembersAreCanonical
append-canonical end_members ns i apart hm hn = hn
append-canonical (member k v ms) ns (i, is) apart (hk, new, hv, hms) hn =
    (hk, get-append k ms ns new ∙ apart k i, hv, append-canonical ms ns is apart hms hn)

pub own_none : (k : Text) (ms : Members) → has_own k ms ≡ false → get_member k ms ≡ none
unfolding has_own get_member
own_none k end_members h = refl
own_none k (member k' v ms) h = elim (Bool-cases (text_eq k' k)) [
  | inl e ↦ cc (rw e at h)
  | inr e ↦ rw e (own_none k ms (rw e at h))
]
