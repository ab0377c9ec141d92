-- ===== src/Release/Manifest.antt =====
-- scripts/build-fips-manifest.mjs: the digests of the files of src/fips/, as `integrity.json`.
-- `createHash('sha256')` is a parameter, and so is what the engine writes for a
-- number. `filesIn` and the names that are left out are those of
-- `integrityTest`.
use kxco_post_quantum.Prelude.{
  Bool, not, ◌&&◌, ◌||◌, ltb, ◌==◌, length, List, [], ◌∷◌, ◌++◌, Option, none, some, if◌then◌else◌,
  Text, Bytes, codes, text_eq, Result, ok, err, require_some, ◌>>=◌,
}
use kxco_post_quantum.Codec.Hex.{bytes_to_hex}
use kxco_post_quantum.Codec.Utf8.{utf8}
use kxco_post_quantum.Codec.Utf8.Decode.{decode_from}
use kxco_post_quantum.Json.{
  Json, Members, null, string, object, end_members, member, get_member, has_own,
}
use kxco_post_quantum.Json.Numbers.{as_written}
use kxco_post_quantum.Json.Print.{stringify_indented}
use kxco_post_quantum.Json.Scan.{ParseError}
use kxco_post_quantum.Json.Parse.{parse}
use kxco_post_quantum.Jws.Sign.{is_index}
use kxco_post_quantum.Backend.{text_leb, sort}
use kxco_post_quantum.Fips.Files.{Found, Entries, files_in, read_file}
use kxco_post_quantum.Fips.Integrity.{manifest_name, present}
use kxco_post_quantum.Release.Disk.{write_file}

pub data BuildError : Type 0 where
  cannot_read : Text → BuildError
  package_not_json package_is_null cannot_write : BuildError

-- The order of an object's own names: the indices by their numbers, then the others as they come.
abbrev pub is_before : Text → Text → Bool
is_before k j =
    is_index k
    && (not (is_index j) || (ltb (length k) (length j) || (length k == length j && text_leb k j)))

unfoldable pub replace_member : Text → Json → Members → Members
replace_member k v end_members = end_members
replace_member k v (member j w ms) =
    if text_eq j k then member j v ms else member j w (replace_member k v ms)

unfoldable pub place_member : Text → Json → Members → Members
place_member k v end_members = member k v end_members
place_member k v (member j w ms) =
    if is_before k j then member k v (member j w ms) else member j w (place_member k v ms)

abbrev pub proto : Text
proto = codes "__proto__"

-- `o[k] = v` for a text `v`, which `__proto__` ignores.
unfoldable pub set_own : Text → Json → Members → Members
set_own k v ms =
    if text_eq k proto
    then ms
    else if has_own k ms
    then replace_member k v ms
    else place_member k v ms

-- `createHash('sha256').update(content).digest('hex')`
abbrev pub digest_of : (Bytes → Bytes) → Bytes → Json
digest_of sha256 content = string (bytes_to_hex (sha256 content))

-- The loop over the paths, with the object so far.
unfoldable pub digest_files :
    (Bytes → Bytes) → List Found → List Text → Members → Result BuildError Members
digest_files sha256 fs [] files = ok files
digest_files sha256 fs (f ∷ paths) files = do
  content ← require_some (read_file f fs) (cannot_read f)
  digest_files sha256 fs paths (set_own f (digest_of sha256 content) files)

abbrev pub written_version : (Text → Option Text) → Option Json → Option Json
written_version number_text none = none
written_version number_text (some v) = some (as_written number_text v)

-- `JSON.parse(text).version`, with the texts that its numbers are written as.
unfoldable pub package_version :
    (number_text : Text → Option Text) → Result ParseError Json → Result BuildError (Option Json)
package_version number_text (err e) = err package_not_json
package_version number_text (ok null) = err package_is_null
package_version number_text (ok (object ms)) =
    ok (written_version number_text (get_member (codes "version") ms))
package_version number_text (ok v) = ok none

-- A member that is undefined is not written.
abbrev pub version_then : Option Json → Members → Members
version_then none ms = ms
version_then (some v) ms = member (codes "version") v ms

unfoldable pub manifest_of : Option Json → Members → Json
manifest_of version files = object (
    member (codes "module") (string (codes "kxco-post-quantum/fips"))
      (version_then version (member (codes "files") (object files) end_members)))

abbrev pub manifest_bytes : Json → Bytes
manifest_bytes manifest = utf8 (stringify_indented manifest ++ b'\n' ∷ [])

-- The script, from the directory and `package.json` to the directory with its manifest.
unfoldable pub build_manifest :
    (Bytes → Bytes)
    → (number_text : Text → Option Text) → (package_json : Bytes) → Entries
    → Result BuildError Entries
build_manifest sha256 number_text package_json dir = do
  let fs = files_in [] dir
  files ← digest_files sha256 fs (sort (present fs)) end_members
  version ← package_version number_text (parse (decode_from none package_json))
  require_some (write_file manifest_name (manifest_bytes (manifest_of version files)) dir)
      cannot_write
