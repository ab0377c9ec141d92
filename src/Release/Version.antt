-- ===== src/Release/Version.antt =====
-- The version that scripts/build-fips-manifest.mjs reads from `package.json`.
use kxco_post_quantum.Prelude.{
  ◌≡◌, Option, Option-cases, none, All, Text, Bytes, IsByte, ok, Result, ok-injective, Result-cases,
  inl, inr, err, codes,
}
use mathlib.Core.Path.{subst}
use kxco_post_quantum.Codec.Utf8.Decode.{decode_from}
use kxco_post_quantum.Json.{Json, Members, null, object, get_member}
use kxco_post_quantum.Json.Canonical.{IsCanonical, MembersAreCanonical}
use kxco_post_quantum.Json.Numbers.{WritesNumbers, as_written-IsCanonical}
use kxco_post_quantum.Json.Scan.{ParseError}
use kxco_post_quantum.Json.Parse.{parse}
use kxco_post_quantum.Json.Typed.{found-IsCanonical, parse-IsCanonical}
use kxco_post_quantum.Codec.Utf8.Decode.Units.{decode_from-units}
use kxco_post_quantum.Release.Manifest.{
  BuildError, package_is_null, written_version, package_version,
}
use kxco_post_quantum.Release.Passes.{VersionIsCanonical}

written-VersionIsCanonical :
    (number_text : Text → Option Text) (k : Text) (ms : Members)
    → WritesNumbers number_text
    → MembersAreCanonical ms
    → VersionIsCanonical (written_version number_text (get_member k ms))
written-VersionIsCanonical number_text k ms numbers h = elim (Option-cases (get_member k ms)) [
  | inl e ↦ rw e tt
  | inr (v, e) ↦ rw e (as_written-IsCanonical number_text numbers v (found-IsCanonical k v ms e h))
]

-- The version that `package.json` gives survives the text of the manifest.
version_of-json :
    (number_text : Text → Option Text) (v : Json) (version : Option Json)
    → WritesNumbers number_text
    → IsCanonical v
    → package_version number_text (ok v) ≡ ok version
    → VersionIsCanonical version
unfolding package_version IsCanonical
version_of-json number_text null version numbers h e = absurd (differ e)
  where
    differ : ◌≡◌ {A = Result BuildError (Option Json)} (err package_is_null) (ok version) → ⊥
    differ p = cc
version_of-json number_text (object ms) version numbers h e =
    subst VersionIsCanonical (ok-injective e)
      (written-VersionIsCanonical number_text (codes "version") ms numbers h)
version_of-json number_text _ version numbers h e = subst VersionIsCanonical (ok-injective e) tt

pub version-IsCanonical :
    (number_text : Text → Option Text) (package_json : Bytes) (version : Option Json)
    → WritesNumbers number_text
    → All IsByte package_json
    → package_version number_text (parse (decode_from none package_json)) ≡ ok version
    → VersionIsCanonical version
unfolding package_version
version-IsCanonical number_text package_json version numbers bytes h =
    elim (Result-cases (parse (decode_from none package_json))) [
      | inl (v, e) ↦
          version_of-json number_text v version numbers
            (parse-IsCanonical _ v (decode_from-units package_json bytes) e) (rw e at h)
      | inr (x, e) ↦ absurd (differ x (rw e at h))
    ]
  where
    differ :
        (y : ParseError)
        → ◌≡◌ {A = Result BuildError (Option Json)}
            (package_version number_text (err y))
            (ok version)
        → ⊥
    differ y p = cc
