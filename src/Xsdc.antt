-- ===== src/Xsdc.antt =====
-- scripts/xsdc.py: the files that the generator wrote, the writing of them into the selected output, and
-- the check of a finished generation. SHA-256, JSON text and where a path leads are parameters.
pub mod Rounds
pub mod Repeated
pub mod Accepted
pub mod Twice
mod Tests
use artbox.Base.{
  ℕ, ◌&&◌, ◌||◌, not, Bool, true, false, Option, none, some, List, [], ◌∷◌, ◌++◌, Result, ok, err,
  require, ◌>>=◌, ◌>>◌,
}
use artbox.Base.Text.{codes, ◌≟◌}
use artbox.Paths.{contains, has_char, dot_dot, is_absolute, parts, as_posix, dirname, join}
use artbox.Tree.{write_file}
use artbox.Tree.Disk.{Disk, make_directory, write_new}
use artbox.Report.Value.{
  Value, text, boolean, object, Fields, no_fields, field, item_of, get_of, same_value,
}
use artbox.Report.Checks.{◌and_then◌, check}

-- What `rglob` finds in a directory, in the order of the paths.
pub data FoundPath : Type 0 where
  alias : List ℕ → FoundPath
  plain : List ℕ → List ℕ → FoundPath
  folder : List ℕ → FoundPath

-- A directory: an alias, nothing or a file, or one with its contents.
pub data Listing : Type 0 where
  unreal : Listing
  real : List FoundPath → Listing

abbrev pub Hashes : Type 0
Hashes = List (List ℕ × List ℕ)

module _ (digest : List ℕ → List ℕ) where
  -- The loop over the sorted paths.
  unfoldable pub found_files : List FoundPath → Result Hashes
  found_files [] = ok []
  found_files (alias path ∷ rest) = err "Generated files must not be aliases"
  found_files (folder path ∷ rest) = found_files rest
  found_files (plain path contents ∷ rest) = do
    hashes ← found_files rest
    ok ((path, digest contents) ∷ hashes)

  -- `generated_files`
  unfoldable pub listed_files : Listing → Result Hashes
  listed_files unreal = err "Generated directory must be a real directory"
  listed_files (real found) = found_files found

-- `path.is_symlink()`, and whether a path leads to a place below the output; both of a path from there.
module _ (is_alias stays_below : List ℕ → Bool) where
  -- `for part in relative.parts`, with the path so far.
  unfoldable pub check_components : List ℕ → List (List ℕ) → Result (Unit {0})
  check_components path [] = ok tt
  check_components path (part ∷ rest) = do
    require (not (is_alias (join path part)) && stays_below (join path part))
        "Generated destination must not be an alias"
    check_components (join path part) rest

  -- `write_generated`, into the output.
  unfoldable pub write_generated : List ℕ → List ℕ → Disk → Result Disk
  write_generated name contents disk = do
    require
        (not (
          is_absolute name
          || contains dot_dot (parts name)
          || has_char 58 name
          || has_char 92 name))
        "Invalid generated destination"
    check_components [] (parts name)
    made ← make_directory (dirname (as_posix (parts name))) disk
    write_new (as_posix (parts name)) contents made

-- The result of `generated_files` as a dict of a record.
abbrev pub dict_of : Hashes → Fields
dict_of [] = no_fields
dict_of (h ∷ hs) = field h.0 (text h.1) (dict_of hs)

-- `record.get(key) == value`
abbrev pub get_is : Value → List ℕ → Value → Result Bool
get_is record' key value = get_of record' key >>= λ v. ok (same_value v value)

-- `negative_controls` of the record.
abbrev pub expected_controls : Value
expected_controls = object (
    field (codes "malformed_schema") (boolean true)
      (field (codes "unknown_root") (boolean true) no_fields))

-- `verify_generation`, with the pin, its digest and the record as they are read.
unfoldable pub verify_generation :
    (List ℕ → List ℕ) → List ℕ → Value → Value → Listing → Result Value
verify_generation digest pin_sha256 pin record' generated = do
  options ← item_of pin (codes "compiler_options")
  files ← item_of pin (codes "generated_files")
  check
      (get_is record' (codes "pin_sha256") (text pin_sha256)
        and_then (get_is record' (codes "compiler_options") options
            and_then (get_is record' (codes "generated_files") files
                and_then (get_is record' (codes "deterministic_generation_verified") (boolean true)
                    and_then get_is record' (codes "negative_controls") expected_controls))))
      "XSdc evidence differs from the pinned compiler/schema contract"
  hashes ← listed_files digest generated
  require (same_value (object (dict_of hashes)) files)
      "XSdc generated bytes differ from the reviewed output"
  ok record'
