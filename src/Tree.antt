-- ===== src/Tree.antt =====
-- The files below a directory, as the scripts read and write them: each with its path from there,
-- relative and in the form of `as_posix`, and its bytes. Directories are not recorded; a directory
-- exists where a file lies in it.
pub mod Writes
pub mod Disk
pub mod Growth
use artbox.Base.{
  ℕ, if◌then◌else◌, Bool, true, false, Option, none, some, List, [], ◌∷◌, ◌++◌, Result, ok, err,
  String, require, ◌>>=◌, ◌>>◌, not,
}
use artbox.Base.Text.{◌≟◌}
use artbox.Paths.{slash, is_nil}
use artbox.Sources.Archive.{starts_with}

abbrev pub File : Type 0
File = List ℕ × List ℕ

abbrev pub Tree : Type 0
Tree = List File

-- `path.read_bytes()`, nothing where `path.is_file()` does not hold.
unfoldable pub file_at : List ℕ → Tree → Option (List ℕ)
file_at path [] = none
file_at path (f ∷ fs) = let rest = file_at path fs in if path ≟ f.0 then some f.1 else rest

abbrev pub is_some {ℓ} : {A : Type ℓ} → Option A → Bool
is_some none = false
is_some (some a) = true

-- `path.write_bytes(contents)`
unfoldable pub write_file : List ℕ → List ℕ → Tree → Tree
write_file path contents [] = (path, contents) ∷ []
write_file path contents (f ∷ fs) =
    let rest = write_file path contents fs in if path ≟ f.0 then (path, contents) ∷ fs else f ∷ rest

-- A loop of such writes.
unfoldable pub write_all : List File → Tree → Tree
write_all [] tree = tree
write_all (f ∷ fs) tree = write_all fs (write_file f.0 f.1 tree)

-- The files below a directory.
unfoldable pub files_below : List ℕ → Tree → Tree
files_below directory [] = []
files_below directory (f ∷ fs) =
    let rest = files_below directory fs in
    if starts_with f.0 (directory ++ slash ∷ []) then f ∷ rest else rest

-- The writes with the first of two files at one path winning.
unfoldable pub copy_all : List File → Tree → Tree
copy_all [] tree = tree
copy_all (f ∷ fs) tree = write_file f.0 f.1 (copy_all fs tree)

-- `shutil.copytree(source / directory, target / directory, dirs_exist_ok=True)`
unfoldable pub copy_tree : List ℕ → Tree → Tree → Result Tree
copy_tree directory source target = do
  require (not (is_nil (files_below directory source))) "FileNotFoundError"
  ok (copy_all (files_below directory source) target)

unfoldable pub paths_of : List File → List (List ℕ)
paths_of [] = []
paths_of (f ∷ fs) = f.0 ∷ paths_of fs
