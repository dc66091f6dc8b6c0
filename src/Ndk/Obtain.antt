-- ===== src/Ndk/Obtain.antt =====
-- scripts/ndk.py: `obtain`, which installs the pinned NDK once. SHA-1, SHA-256, the blocks of the download
-- and the reading of a ZIP archive are parameters.
pub mod Checked
use artbox.Base.{
  ℕ, ◌==◌, ◌&&◌, ◌||◌, not, if◌then◌else◌, Bool, true, false, Option, none, some, List, [], ◌∷◌,
  ◌++◌, length, Result, ok, err,
}
use artbox.Base.Text.{codes, ◌≟◌}
use artbox.Base.Utf8.{decode}
use artbox.Paths.{is_nil, join}
use artbox.Tree.{file_at}
use artbox.Shell.{Act, ◌>>=◌, ◌>>◌, give, demand, change, has_text}
use artbox.Ndk.{revision, toolkit, NdkMember, Alias, Toolchain, extract_ndk}

-- An entry of `ARCHIVES`.
pub record Archive : Type 0 where
  pub host : List ℕ
  pub size : ℕ
  pub sha1 : List ℕ

-- `ARCHIVES`
unfoldable pub archive_of : List ℕ → Option Archive
archive_of platform =
    if platform ≟ codes "win32"
    then some (record {
      host = codes "windows";
      size = 748118221;
      sha1 = codes "086bba43ff2f5eb0e387b15c8278bb4e0d89ba1d";
    })
    else if platform ≟ codes "darwin"
    then some (record {
      host = codes "darwin";
      size = 952495160;
      sha1 = codes "fc20a6bf15a30fb3428c9b60a7308793a362dc6d";
    })
    else if platform ≟ codes "linux"
    then some (record {
      host = codes "linux";
      size = 722261334;
      sha1 = codes "a7b54a5de87fecd125a17d54f73c446199e72a64";
    })
    else none

-- `toolchains` with the kit in it, the archive in `downloads`, and the `.zip.sha256` beside it.
pub record NdkCache : Type 0 where
  pub installed : Option Toolchain
  pub archive : Option (List ℕ)
  pub sha256_note : Option (List ℕ)

-- The returned path: the one that was configured, or the installation.
pub data Root : Type 0 where
  configured : List ℕ → Root
  installed : Root

abbrev pub required_line : List ℕ
required_line = codes "Pkg.Revision = " ++ revision

abbrev pub checked_text : Result (List ℕ) → Result (Unit {0})
checked_text (err message) = err message
checked_text (ok properties) =
    if has_text required_line properties then ok tt else err "M1 requires NDK r28c"

-- `checked_root`, on the bytes of `source.properties`.
unfoldable pub checked_root : Option (List ℕ) → Result (Unit {0})
checked_root none = err "FileNotFoundError"
checked_root (some bytes) = checked_text (decode bytes)

-- `source.properties` of the kit in a directory.
abbrev pub properties_of : Toolchain → Option (List ℕ)
properties_of kit = file_at (join toolkit (codes "source.properties")) kit.disk.files

-- `explicit or os.environ.get("ARTBOX_NDK_ROOT")`, where an empty text counts as none.
abbrev pub or_variable : Option (List ℕ) → Option (List ℕ) → Option (List ℕ)
or_variable none variable = variable
or_variable (some path) variable = if is_nil path then variable else some path

-- `if configured`
abbrev pub filled_text : Option (List ℕ) → Option (List ℕ)
filled_text none = none
filled_text (some path) = if is_nil path then none else some path

-- The bytes that the loop writes: the blocks before the first empty one.
unfoldable pub written_blocks : List (List ℕ) → List ℕ
written_blocks [] = []
written_blocks (b ∷ bs) = let rest = written_blocks bs in if is_nil b then [] else b ++ rest

module _ (sha1 sha256 : List ℕ → List ℕ) (download : List ℕ → Result (List (List ℕ)))
    (read : List ℕ → Result (List NdkMember)) (posix : Bool) (stays : List ℕ → Bool)
    (follow : List Alias → List ℕ → Result (List ℕ)) where
  -- `if not archive.is_file()`
  unfoldable pub fetch_ndk : List ℕ → Option (List ℕ) → Act NdkCache (List ℕ)
  fetch_ndk host (some bytes) = give (ok bytes)
  fetch_ndk host none = do
    blocks ← give (download host)
    change λ (s : NdkCache). record s { archive = some (written_blocks blocks) }
    give (ok (written_blocks blocks))

  -- From the check of the archive on.
  unfoldable pub install_ndk : Archive → List ℕ → Act NdkCache Root
  install_ndk pin bytes = do
    demand (length bytes == pin.size && sha1 bytes ≟ pin.sha1)
        "Pinned NDK archive verification failed"
    change λ (s : NdkCache). record s { sha256_note = some (sha256 bytes ++ codes "\n") }
    members ← give (read bytes)
    kit ← give (extract_ndk follow posix stays members)
    give (checked_root (properties_of kit))
    change λ (s : NdkCache). record s { installed = some kit }
    give (ok Root.installed)

  unfoldable pub obtain_archive : Option Archive → Act NdkCache Root
  obtain_archive none = give (err "Supply ARTBOX_NDK_ROOT for this build host")
  obtain_archive (some pin) = do
    bytes ← λ (s : NdkCache). fetch_ndk pin.host s.archive s
    install_ndk pin bytes

  -- `if installed.is_dir()`
  unfoldable pub obtain_installed : List ℕ → Option Toolchain → Act NdkCache Root
  obtain_installed platform (some kit) = do
    give (checked_root (properties_of kit))
    give (ok Root.installed)
  obtain_installed platform none = obtain_archive (archive_of platform)

  -- `obtain`, where a configured path is resolved and read by a function.
  unfoldable pub obtain_configured :
      (List ℕ → Option (List ℕ)) → List ℕ → Option (List ℕ) → Act NdkCache Root
  obtain_configured properties platform (some path) = do
    give (checked_root (properties path))
    give (ok (Root.configured path))
  obtain_configured properties platform none =
      λ (s : NdkCache). obtain_installed platform s.installed s

  unfoldable pub obtain_ndk :
      (List ℕ → Option (List ℕ)) → List ℕ → Option (List ℕ) → Option (List ℕ) → Act NdkCache Root
  obtain_ndk properties platform explicit variable =
      obtain_configured properties platform (filled_text (or_variable explicit variable))
