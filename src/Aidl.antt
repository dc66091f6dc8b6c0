-- ===== src/Aidl.antt =====
-- scripts/binder_aidl.py: the cache of pinned compiler files, and
-- the choice of the compiler for the host. SHA-256, the Git blob hash, the download and the resolving of links are parameters.
pub mod Removed
pub mod Moved
pub mod Fetched
pub mod Generate
pub mod Generated
pub mod Rounds
mod GenerationTests
mod Tests
use artbox.Base.{
  ℕ, ◌==◌, ◌&&◌, ◌||◌, not, if◌then◌else◌, Bool, true, false, Option, none, some, List, [], ◌∷◌,
  ◌++◌, length, Result, ok, err, require, ◌>>=◌, ◌>>◌,
}
use artbox.Base.Text.{codes, ◌≟◌}
use artbox.Paths.{
  is_nil, contains, has_char, is_absolute, dot_dot, parts, as_posix, split_slash, dirname, join,
}
use artbox.Tree.{Tree, file_at, write_file}
use artbox.Tree.Disk.{Disk, exists, make_directory}
use artbox.Sources.Selection.{is_hex}
use artbox.Environment.{or_text}
use artbox.Jdk.Obtain.{lower}

-- `safe_relative`
unfoldable pub safe_relative : List ℕ → Result (List ℕ)
safe_relative name = do
  require
      (not (
        is_nil name
        || is_nil (parts name)
        || is_absolute name
        || not (as_posix (parts name) ≟ name)
        || contains dot_dot (parts name)
        || has_char 58 name
        || has_char 92 name))
      "Compiler input path must be a normalized relative path"
  ok name

-- `{...}.get(machine, machine)`
abbrev machine_key : List ℕ → List ℕ
machine_key machine =
    if machine ≟ codes "amd64"
    then codes "x86_64"
    else if machine ≟ codes "aarch64"
    then codes "arm64"
    else machine

-- `native_profile`, with the system and the machine of the host as the last arguments.
unfoldable pub native_profile :
    Option (List ℕ) → Option (List ℕ) → List ℕ → List ℕ → Result (List ℕ)
native_profile system machine host_system host_machine = do
  let key =
      lower (or_text system host_system)
      ++ (codes "-" ++ machine_key (lower (or_text machine host_machine)))
  require (contains key (codes "darwin-arm64" ∷ codes "darwin-x86_64" ∷ codes "linux-x86_64" ∷ []))
      "No reviewed native AIDL binary for this host"
  ok key

-- An entry of `spec['files']` or `spec['notices']`.
pub record Input : Type 0 where
  pub path : List ℕ
  pub bytes : ℕ
  pub sha256 : List ℕ
  pub git_blob : List ℕ

-- The directory of the cache, and the paths in it that are symbolic links.
pub record Store : Type 0 where
  pub disk : Disk
  pub links : List (List ℕ)

-- `replace` and `unlink` take a file from its path.
unfoldable pub remove_file : List ℕ → Tree → Tree
remove_file path [] = []
remove_file path (f ∷ fs) = let rest = remove_file path fs in if path ≟ f.0 then rest else f ∷ rest

module _ (is_word : ℕ → Bool) where
  -- `re.fullmatch(r'[\w.-]+', text)`
  unfoldable pub all_dotted : List ℕ → Bool
  all_dotted [] = true
  all_dotted (c ∷ cs) = (is_word c || c == 46 || c == 45) && all_dotted cs

  abbrev two_words : List (List ℕ) → Bool
  two_words (a ∷ b ∷ []) = not (is_nil a) && all_dotted a && (not (is_nil b) && all_dotted b)
  two_words _ = false

  -- `re.fullmatch(r'[\w.-]+/[\w.-]+', repository)`, where `is_word` is `\w`
  unfoldable pub is_repository : List ℕ → Bool
  is_repository repository = two_words (split_slash repository)

module _ (digest : List ℕ → List ℕ) (blob_digest : List ℕ → List ℕ) where
  -- `verify_file` with the contents of the path, nothing where it is not a file.
  unfoldable pub verify_contents : Input → Option (List ℕ) → Result (Unit {0})
  verify_contents item none = err "Pinned compiler input is missing or has the wrong size"
  verify_contents item (some contents) = do
    require (length contents == item.bytes) "Pinned compiler input is missing or has the wrong size"
    require (digest contents ≟ item.sha256 && blob_digest contents ≟ item.git_blob)
        "Pinned compiler input differs from its SHA-256 or Git blob"

  -- `verify_file`
  unfoldable pub verify_file : List ℕ → Input → List (List ℕ) → Tree → Result (Unit {0})
  verify_file path item links files = do
    require (not (contains path links)) "Pinned compiler input is missing or has the wrong size"
    verify_contents item (file_at path files)

  -- The `try` and `finally` of `fetch_file`: what the download wrote before it returned or raised
  -- stands at the temporary path until it is verified and moved.
  abbrev pub keep_if : Result (Unit {0}) → List ℕ → List ℕ → List ℕ → Tree → Tree × Result (List ℕ)
  keep_if (err message) target temporary contents staged =
      (remove_file temporary staged, err message)
  keep_if (ok passed) target temporary contents staged =
      (remove_file temporary (write_file target contents (remove_file temporary staged)), ok target)

  unfoldable pub move_verified :
      List ℕ
      → List ℕ
      → Input
      → List (List ℕ)
      → List ℕ × Result (Unit {0})
      → Tree
      → Tree × Result (List ℕ)
  move_verified target temporary item links download files =
      let staged = write_file temporary download.0 files in
      keep_if (download.1 >> verify_file temporary item links staged) target temporary download.0
        staged

  abbrev pub fetch_into :
      Result Disk
      → List ℕ
      → List ℕ
      → Input
      → List ℕ × Result (Unit {0})
      → Store
      → Store × Result (List ℕ)
  fetch_into (err message) target temporary item download store = (store, err message)
  fetch_into (ok disk) target temporary item download store =
      let moved = move_verified target temporary item store.links download disk.files in
      (record store { disk = record disk { files = moved.0 } }, moved.1)

  -- From `if target.exists() or target.is_symlink()` to the end.
  unfoldable pub fetch_target :
      List ℕ → List ℕ → Input → List ℕ × Result (Unit {0}) → Store → Store × Result (List ℕ)
  fetch_target target temporary item download store =
      if exists target store.disk || contains target store.links
      then (store, verify_file target item store.links store.disk.files >> ok target)
      else fetch_into (make_directory (dirname target) store.disk) target temporary item download
          store

  module _ (is_word : ℕ → Bool) (inside : List ℕ → List ℕ → Bool)
      (download : List ℕ → List ℕ → List ℕ → List ℕ × Result (Unit {0})) where
    -- The checks before; `inside root target` is that the target resolves to a path in the root.
    unfoldable pub check_request : List ℕ → List ℕ → List ℕ → Input → Result (List ℕ)
    check_request root repository commit item = do
      require (is_repository is_word repository && is_hex 40 commit)
          "Invalid pinned compiler repository or commit"
      name ← safe_relative item.path
      require (inside root (join root name)) "Compiler cache path escapes its configured directory"
      ok (join root name)

    abbrev pub fetch_checked :
        Result (List ℕ)
        → List ℕ
        → Input
        → List ℕ × Result (Unit {0})
        → Store
        → Store × Result (List ℕ)
    fetch_checked (err message) temporary item written store = (store, err message)
    fetch_checked (ok target) temporary item written store =
        fetch_target target temporary item written store

    -- `fetch_file` with the name that `NamedTemporaryFile` gives: the cache afterwards, and the path
    -- or what is raised. The root is a path in the cache, empty for the cache itself.
    unfoldable pub fetch_file :
        List ℕ → List ℕ → List ℕ → Input → List ℕ → Store → Store × Result (List ℕ)
    fetch_file root repository commit item temporary store =
        fetch_checked (check_request root repository commit item) temporary item
          (download repository commit item.path) store
