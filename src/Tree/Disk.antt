-- ===== src/Tree/Disk.antt =====
-- A directory with its subdirectories and files, as scripts/jdk.py and the scripts after it write to
-- one: the directories that were made, the files, and the modes that were set. A file also makes the
-- directories above it.
use artbox.Base.{
  ℕ, ◌||◌, not, if◌then◌else◌, Bool, false, Option, none, some, List, [], ◌∷◌, ◌++◌, Result, ok,
  require, ◌>>◌,
}
use artbox.Base.Text.{◌≟◌}
use artbox.Paths.{slash, parents}
use artbox.Sources.Archive.{starts_with}
use artbox.Tree.{Tree, file_at, write_file, is_some}

pub record Disk : Type 0 where
  pub files : Tree
  pub directories : List (List ℕ)
  pub modes : List (List ℕ × ℕ)

abbrev pub empty_disk : Disk
empty_disk = record { files = []; directories = []; modes = [] }

abbrev is_below : List ℕ → List ℕ → Bool
is_below path directory = starts_with path (directory ++ slash ∷ [])

-- Some directory that was made is at or below a path.
unfoldable pub any_directory : List ℕ → List (List ℕ) → Bool
any_directory path [] = false
any_directory path (d ∷ ds) = d ≟ path || is_below d path || any_directory path ds

unfoldable pub any_file_below : List ℕ → Tree → Bool
any_file_below path [] = false
any_file_below path (f ∷ fs) = is_below f.0 path || any_file_below path fs

-- `path.is_dir()`
abbrev pub is_directory_at : List ℕ → Disk → Bool
is_directory_at path disk = any_directory path disk.directories || any_file_below path disk.files

-- `path.exists()`
unfoldable pub exists : List ℕ → Disk → Bool
exists path disk = is_some (file_at path disk.files) || is_directory_at path disk

unfoldable pub any_is_file : List (List ℕ) → Tree → Bool
any_is_file [] files = false
any_is_file (p ∷ ps) files = is_some (file_at p files) || any_is_file ps files

-- `path.mkdir(parents=True, exist_ok=True)`
unfoldable pub make_directory : List ℕ → Disk → Result Disk
make_directory path disk = do
  require (not (any_is_file (path ∷ parents path) disk.files)) "FileExistsError"
  ok (record disk { directories = path ∷ disk.directories })

-- `path.parent.mkdir(parents=True, exist_ok=True)`, then the file written.
unfoldable pub write_new : List ℕ → List ℕ → Disk → Result Disk
write_new path contents disk = do
  require (not (any_is_file (parents path) disk.files)) "FileExistsError"
  require (not (is_directory_at path disk)) "IsADirectoryError"
  ok (record disk { files = write_file path contents disk.files })

-- `path.chmod(mode)`
unfoldable pub set_mode : List ℕ → ℕ → Disk → Disk
set_mode path mode disk = record disk { modes = (path, mode) ∷ disk.modes }

unfoldable pub mode_at : List ℕ → List (List ℕ × ℕ) → Option ℕ
mode_at path [] = none
mode_at path (m ∷ ms) = let rest = mode_at path ms in if path ≟ m.0 then some m.1 else rest

-- The mode of one file given to another.
abbrev pub copy_mode : Option ℕ → List ℕ → Disk → Disk
copy_mode none target disk = disk
copy_mode (some mode) target disk = set_mode target mode disk
