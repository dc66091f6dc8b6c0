-- ===== src/Ndk.antt =====
-- scripts/ndk.py: `extract`, which unpacks the NDK archive into an empty directory: files as they come,
-- symbolic links after them. Where a path leads is a parameter, and so is where an entry comes to be
-- that is made at a path, through the links that were made before it.
pub mod Links
pub mod Extracted
pub mod Obtain
mod Tests
use artbox.Base.{
  ℕ, ◌/◌, ◌%◌, ◌==◌, ◌&&◌, ◌||◌, not, if◌then◌else◌, Bool, true, false, Option, none, some, List,
  [], ◌∷◌, ◌++◌, Result, ok, err, require, ◌>>=◌, ◌>>◌,
}
use artbox.Base.Text.{codes, ◌≟◌}
use artbox.Base.Utf8.{decode}
use artbox.Paths.{
  is_nil, contains, has_char, dot_dot, is_absolute, parts, as_posix, dirname, join, ends_in_slash,
}
use artbox.Jdk.Entries.{is_link_mode}
use artbox.Sources.Archive.{first_is}
use artbox.Tree.{paths_of}
use artbox.Tree.Disk.{Disk, empty_disk, exists, make_directory, write_new, set_mode}

-- `REVISION` and `NAME`
abbrev pub revision : List ℕ
revision = codes "28.2.13676358"

abbrev pub toolkit : List ℕ
toolkit = codes "android-ndk-r28c"

-- A `ZipInfo`, with the bytes of the member.
pub record NdkMember : Type 0 where
  pub filename : List ℕ
  pub external_attr : ℕ
  pub contents : List ℕ

-- A path and what the link at it says.
abbrev pub Alias : Type 0
Alias = List ℕ × List ℕ

-- What was extracted: files and directories, then links.
pub record Toolchain : Type 0 where
  pub disk : Disk
  pub links : List Alias

abbrev pub no_toolchain : Toolchain
no_toolchain = record { disk = empty_disk; links = [] }

-- `member.external_attr >> 16`
abbrev pub mode_of : NdkMember → ℕ
mode_of m = m.external_attr / 65536

abbrev pub is_unsafe_filename : List ℕ → Bool
is_unsafe_filename filename =
    is_absolute filename
    || contains dot_dot (parts filename)
    || has_char 92 filename
    || has_char 58 filename

abbrev pub with_mode : Bool → ℕ → List ℕ → Disk → Disk
with_mode posix mode path disk =
    if posix && not (mode == 0) then set_mode path (mode % 512) disk else disk

unfoldable pub zip_directory : List ℕ → Toolchain → Result Toolchain
zip_directory path x = do disk ← make_directory path x.disk; ok (record x { disk = disk })

module _ (posix : Bool) (stays : List ℕ → Bool) where
  unfoldable pub zip_link : NdkMember → List ℕ → Toolchain → Result Toolchain
  zip_link m path x = do
    target ← decode m.contents
    require (not (is_absolute target) && stays (join (dirname path) target))
        "NDK symlink escapes extraction root"
    ok (record x { links = x.links ++ ((path, target) ∷ []) })

  unfoldable pub zip_file : NdkMember → List ℕ → Toolchain → Result Toolchain
  zip_file m path x = do
    disk ← write_new path m.contents x.disk
    ok (record x { disk = with_mode posix (mode_of m) path disk })

  -- A directory, a link or a file.
  unfoldable pub extract_as : Bool → Bool → NdkMember → List ℕ → Toolchain → Result Toolchain
  extract_as true link m path x = zip_directory path x
  extract_as false true m path x = zip_link m path x
  extract_as false false m path x = zip_file m path x

  -- The body of the loop over the members.
  unfoldable pub extract_zipped : NdkMember → Toolchain → Result Toolchain
  extract_zipped m x = do
    require (not (is_unsafe_filename m.filename)) "NDK archive contains an unsafe path"
    require (first_is toolkit (parts m.filename)) "Unexpected NDK archive root"
    let path = as_posix (parts m.filename)
    extract_as (ends_in_slash m.filename) (is_link_mode (mode_of m)) m path x

  unfoldable pub extract_zipped_all : List NdkMember → Toolchain → Result Toolchain
  extract_zipped_all [] x = ok x
  extract_zipped_all (m ∷ ms) x = do x' ← extract_zipped m x; extract_zipped_all ms x'

module _ (follow : List Alias → List ℕ → Result (List ℕ)) where
  -- The body of the loop over `links`: the parent of the path may be a link that was made before.
  unfoldable pub make_link : Alias → Toolchain → Result Toolchain
  make_link link x = do
    place ← follow x.links link.0
    disk ← make_directory (dirname place) x.disk
    require (not (exists place disk || contains place (paths_of x.links))) "FileExistsError"
    ok (record { disk = disk; links = x.links ++ ((place, link.1) ∷ []) })

  unfoldable pub make_links : List Alias → Toolchain → Result Toolchain
  make_links [] x = ok x
  make_links (l ∷ ls) x = do x' ← make_link l x; make_links ls x'

  -- `extract`
  unfoldable pub extract_ndk : Bool → (List ℕ → Bool) → List NdkMember → Result Toolchain
  extract_ndk posix stays members = do
    x ← extract_zipped_all posix stays members no_toolchain
    make_links x.links (record x { links = [] })
