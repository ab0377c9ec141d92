-- ===== src/Fips/Files.antt =====
-- The files that src/fips/index.js reads: its own directory, as a tree.
use kxco_post_quantum.Prelude.{
  List, [], ◌∷◌, ◌++◌, Option, none, some, if◌then◌else◌, Text, Bytes, text_eq,
}

mutual
  pub data Entry : Type 0 where
    file : (name : Text) → Bytes → Entry
    directory : (name : Text) → Entries → Entry

  pub data Entries : Type 0 where
    no_entries : Entries
    entry : Entry → Entries → Entries

pub record Found : Type 0 where
  pub path : Text
  pub content : Bytes

-- `filesIn`, with the contents. `prefix` is the path from the module's directory, and ends with `/`.
unfoldable mutual
  pub files_in : (prefix : Text) → Entries → List Found
  files_in prefix no_entries = []
  files_in prefix (entry e es) = files_of prefix e ++ files_in prefix es

  pub files_of : (prefix : Text) → Entry → List Found
  files_of prefix (file name content) = record { path = prefix ++ name; content = content } ∷ []
  files_of prefix (directory name es) = files_in (prefix ++ (name ++ b'/' ∷ [])) es

-- `readFileSync`; `none` is a throw.
unfoldable pub read_file : Text → List Found → Option Bytes
read_file p [] = none
read_file p (f ∷ fs) = if text_eq f.path p then some f.content else read_file p fs
