-- ===== src/Reference/Prepare.antt =====
-- scripts/binder_reference.py: `prepare`, which fetches the pinned package and installs the module and
-- the notice of it in the cache. The download, JSON text and the splitting of a URL are parameters.
use artbox.Base.{
  ℕ, ◌-◌, ltb, leb, ◌==◌, ◌&&◌, ◌||◌, not, Bool, true, Option, none, some, List, [], ◌∷◌, length,
  take, drop, Result, ok, err, require, ◌>>=◌, ◌>>◌,
}
use artbox.Base.Text.{codes, ◌≟◌}
use artbox.Paths.{is_nil, contains, has_char, is_absolute, dot_dot, parts}
use artbox.Tree.{Tree, file_at, write_file, write_all}
use artbox.Jdk.Obtain.{or_missing}
use artbox.Reference.{name_of}
use artbox.Reference.Archive.{Pinned, Packed, Written, check_contents, unpack_reference}

-- The parts of `spec` that are read.
pub record Package : Type 0 where
  pub name : List ℕ
  pub version : List ℕ
  pub url : List ℕ
  pub pinned : Pinned
  pub module_path : List ℕ
  pub module_pin : Pinned
  pub notice_path : List ℕ
  pub notice_pin : Pinned

abbrev same_pin : Pinned → Pinned → Bool
same_pin a b = a.bytes == b.bytes && a.sha256 ≟ b.sha256

abbrev pub same_package : Package → Package → Bool
same_package a b =
    a.name ≟ b.name
    && a.version ≟ b.version
    && a.url ≟ b.url
    && same_pin a.pinned b.pinned
    && a.module_path ≟ b.module_path
    && same_pin a.module_pin b.module_pin
    && a.notice_path ≟ b.notice_path
    && same_pin a.notice_pin b.notice_pin

-- The cache: the archive, whether its partial download and the directory are aliases, and what is
-- installed.
pub record Depot : Type 0 where
  pub archive : Option (List ℕ)
  pub partial_alias : Bool
  pub installed_alias : Bool
  pub installed : Option Tree

abbrev is_between : ℕ → ℕ → ℕ → Bool
is_between low high c = leb low c && leb c high

abbrev is_small : ℕ → Bool
is_small c = is_between 97 122 c || is_between 48 57 c || c == 46 || c == 43 || c == 45

abbrev is_package_char : ℕ → Bool
is_package_char c = is_small c

abbrev is_version_char : ℕ → Bool
is_version_char c = is_small c || c == 126

abbrev is_file_char : ℕ → Bool
is_file_char c = is_version_char c || is_between 65 90 c || c == 95

unfoldable pub all_chars : (ℕ → Bool) → List ℕ → Bool
all_chars test [] = true
all_chars test (c ∷ cs) = test c && all_chars test cs

-- `re.fullmatch(r'[...]+', text)`
abbrev some_chars : (ℕ → Bool) → List ℕ → Bool
some_chars test text = not (is_nil text) && all_chars test text

-- `re.fullmatch(r'[...]+\.deb', text)`
abbrev is_archive_name : List ℕ → Bool
is_archive_name text =
    ltb 4 (length text)
    && drop (length text - 4) text ≟ codes ".deb"
    && all_chars is_file_char (take (length text - 4) text)

abbrev is_unsafe_member : List ℕ → Bool
is_unsafe_member name = is_absolute name || contains dot_dot (parts name) || has_char 92 name

-- The checks before anything is read.
unfoldable pub check_package : (List ℕ → List ℕ) → Package → Result (Unit {0})
check_package url_path spec = do
  require
      (not (
        not (some_chars is_package_char spec.name)
        || not (some_chars is_version_char spec.version)))
      "Unsafe reference package identity"
  require
      (not (
        spec.module_path ≟ spec.notice_path || name_of spec.module_path ≟ name_of spec.notice_path))
      "Reference module and notice must be distinct"
  require (not (is_unsafe_member spec.module_path || is_unsafe_member spec.notice_path))
      "Unsafe pinned reference member"
  require (is_archive_name (name_of (url_path spec.url))) "Unsafe reference archive filename"

abbrev pub pin_name : List ℕ
pin_name = codes "pin.json"

-- The files of the staged payload, by the last component of their names.
unfoldable pub placed_files : Written → Tree
placed_files [] = []
placed_files (w ∷ ws) = (name_of w.0, w.1) ∷ placed_files ws

module _ (digest : List ℕ → List ℕ) where
  -- `check_file`
  unfoldable pub check_file : Pinned → Option (List ℕ) → Result (Unit {0})
  check_file spec none = err "Pinned Binder reference bytes differ"
  check_file spec (some contents) = check_contents digest spec contents

  -- `if not archive.is_file()`
  unfoldable pub fetch_package :
      Result (List ℕ) → Package → Bool → Option (List ℕ) → Result (List ℕ)
  fetch_package download spec partial_alias (some contents) = ok contents
  fetch_package download spec partial_alias none = do
    require (not partial_alias) "Refusing a redirected package download"
    partial ← download
    check_file spec.pinned (some partial)
    ok partial

  module _ (parse : List ℕ → Result Package) (render : Package → List ℕ)
      (read_tar : List ℕ → Result (List Packed)) where
    abbrev pub chosen_files : Package → List (List ℕ × Pinned)
    chosen_files spec =
        (spec.module_path, spec.module_pin) ∷ (spec.notice_path, spec.notice_pin) ∷ []

    -- `if not installed.exists()`
    unfoldable pub install_package : Package → List ℕ → Option Tree → Result Tree
    install_package spec archive (some files) = ok files
    install_package spec archive none = do
      written ← unpack_reference digest (chosen_files spec) read_tar archive
      ok (write_file pin_name (render spec) (write_all (placed_files written) []))

    -- The checks of what is installed.
    unfoldable pub check_package_files : Package → Tree → Result (Unit {0})
    check_package_files spec files = do
      text ← or_missing (file_at pin_name files)
      found ← parse text
      require (same_package found spec) "Reference cache provenance differs"
      check_file spec.module_pin (file_at (name_of spec.module_path) files)
      check_file spec.notice_pin (file_at (name_of spec.notice_path) files)

    -- `prepare`: the cache afterwards; the directory that is returned is the installed one.
    unfoldable pub prepare_reference :
        (List ℕ → List ℕ) → Result (List ℕ) → Package → Depot → Result (Tree × Depot)
    prepare_reference url_path download spec depot = do
      check_package url_path spec
      archive ← fetch_package download spec depot.partial_alias depot.archive
      check_file spec.pinned (some archive)
      require (not depot.installed_alias) "Refusing redirected reference directory"
      files ← install_package spec archive depot.installed
      check_package_files spec files
      ok (files, record depot { archive = some archive; installed = some files })
