-- ===== src/Release/Disk.antt =====
-- What the release scripts use of `node:fs`, and the FIPS module's directory as a disk.
use kxco_post_quantum.Prelude.{Option, none, some, [], if◌then◌else◌, Text, Bytes, text_eq}
use kxco_post_quantum.Fips.Files.{
  Entry, Entries, file, directory, no_entries, entry, files_in, read_file,
}

-- `readFileSync` and `writeFileSync` on the disks of a kind: `none` is a throw.
pub record Disk {ℓ} (D : Type ℓ) : Type ℓ where
  pub read : Text → D → Option Bytes
  pub write : Text → Bytes → D → Option D

abbrev pub put : Entry → Option Entries → Option Entries
put e none = none
put e (some es) = some (entry e es)

-- A file directly in a directory: one that is there gets the new content, another is added, and a
-- directory cannot be written to.
unfoldable pub write_file : Text → Bytes → Entries → Option Entries
write_file n bytes no_entries = some (entry (file n bytes) no_entries)
write_file n bytes (entry (file m content) es) =
    let others = write_file n bytes es in
    if text_eq m n then some (entry (file n bytes) es) else put (file m content) others
write_file n bytes (entry (directory m inner) es) =
    let others = write_file n bytes es in
    if text_eq m n then none else put (directory m inner) others

-- A path is read from the directory; what is written is a file directly in it.
abbrev pub module_disk : Disk Entries
module_disk = record { read = λ p dir. read_file p (files_in [] dir); write = write_file }
