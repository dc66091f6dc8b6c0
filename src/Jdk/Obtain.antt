-- ===== src/Jdk/Obtain.antt =====
-- scripts/jdk.py: `obtain`, which installs the pinned JDK once and checks it afterwards. SHA-256, JSON
-- text, the reading of an archive and the download are parameters.
pub mod Again
mod Tests
use artbox.Base.{
  ℕ, ◌+◌, ltb, ◌==◌, ◌&&◌, ◌||◌, not, if◌then◌else◌, Bool, true, false, Option, none, some, List,
  [], ◌∷◌, ◌++◌, length, Result, ok, err, require, ◌>>=◌, ◌>>◌,
}
use artbox.Base.Text.{codes, ◌≟◌}
use artbox.Paths.{join}
use artbox.Tree.{Tree, file_at, write_file, is_some}
use artbox.Tree.Disk.{Disk}
use artbox.Jdk.{Entry, extract}

-- An entry of `manifest['archives']`.
pub record Spec : Type 0 where
  pub name : List ℕ
  pub home : List ℕ
  pub root : List ℕ
  pub bytes : ℕ
  pub sha256 : List ℕ

abbrev pub same_spec : Spec → Spec → Bool
same_spec a b =
    a.name ≟ b.name
    && a.home ≟ b.home
    && a.root ≟ b.root
    && a.bytes == b.bytes
    && a.sha256 ≟ b.sha256

-- What the code reads of `artbox-jdk.json`.
pub record Installed : Type 0 where
  pub archive : Spec
  pub files : List (List ℕ × List ℕ)

-- The directories of the cache: the installation and the download, each an alias or not.
pub record Cache : Type 0 where
  pub installed_alias : Bool
  pub installed : Option Tree
  pub archive_alias : Bool
  pub archive : Option (List ℕ)

abbrev pub lower : List ℕ → List ℕ
lower [] = []
lower (c ∷ cs) = (if ltb 64 c && ltb c 91 then c + 32 else c) ∷ lower cs

-- `{...}.get(machine, machine)` of a name of ASCII letters.
unfoldable pub machine_name : List ℕ → List ℕ
machine_name machine =
    if machine ≟ codes "amd64" || machine ≟ codes "x86_64"
    then codes "x64"
    else if machine ≟ codes "arm64"
    then codes "aarch64"
    else machine

-- `manifest['archives'].get(key)`
unfoldable pub spec_of : List ℕ → List (List ℕ × Spec) → Option Spec
spec_of key [] = none
spec_of key (a ∷ rest) = let found = spec_of key rest in if key ≟ a.0 then some a.1 else found

unfoldable pub pinned_spec : List ℕ → List ℕ → List (List ℕ × Spec) → Option Spec
pinned_spec platform machine archives =
    spec_of (platform ++ (codes "-" ++ machine_name (lower machine))) archives

abbrev pub marker : List ℕ
marker = codes "artbox-jdk.json"

abbrev pub or_missing : Option (List ℕ) → Result (List ℕ)
or_missing none = err "FileNotFoundError"
or_missing (some contents) = ok contents

module _ (digest : List ℕ → List ℕ) where
  -- `for name, expected in record['files'].items()`
  unfoldable pub check_files : Tree → List (List ℕ × List ℕ) → Result (Unit {0})
  check_files files [] = ok tt
  check_files files (e ∷ es) = do
    contents ← or_missing (file_at e.0 files)
    require (digest contents ≟ e.1) "Installed JDK file changed"
    check_files files es

  unfoldable pub check_installed : (List ℕ → Result Installed) → Spec → Tree → Result (Unit {0})
  check_installed parse spec files = do
    text ← or_missing (file_at marker files)
    record' ← parse text
    require (same_spec record'.archive spec) "Installed JDK provenance differs"
    check_files files record'.files

  unfoldable pub verify_archive : Spec → List ℕ → Result (Unit {0})
  verify_archive spec contents =
      require (length contents == spec.bytes && digest contents ≟ spec.sha256)
        "JDK archive differs from the reviewed checksum"

  -- `if not archive.is_file()`: the archive that is there, or one downloaded and verified.
  unfoldable pub fetch_archive : Result (List ℕ) → Spec → Option (List ℕ) → Result (List ℕ)
  fetch_archive download spec (some contents) = ok contents
  fetch_archive download spec none = do partial ← download; verify_archive spec partial; ok partial

  -- The dict `files` of the record: each path that is there with the digest of what it holds.
  abbrev pub with_digest :
      List ℕ → Option (List ℕ) → List (List ℕ × List ℕ) → List (List ℕ × List ℕ)
  with_digest path none rest = rest
  with_digest path (some contents) rest = (path, digest contents) ∷ rest

  unfoldable pub digests : Tree → Tree → List (List ℕ × List ℕ)
  digests files [] = []
  digests files (f ∷ fs) = with_digest f.0 (file_at f.0 files) (digests files fs)

  module _ (fold : List ℕ → List ℕ) (parse : List ℕ → Result Installed)
      (render : Installed → List ℕ) (read : List ℕ → Result (List Entry)) (java : List ℕ) where
    -- The installation from an archive, up to the move to its place; `java` is the name of the program.
    unfoldable pub install : Spec → List ℕ → Result Tree
    install spec archive = do
      entries ← read archive
      disk ← extract fold spec.root entries
      require (is_some (file_at (join (join spec.home (codes "bin")) java) disk.files))
          "Portable JDK archive is missing java"
      ok (
          write_file marker
            (render (record { archive = spec; files = digests disk.files disk.files })) disk.files)

    -- Where nothing is installed.
    unfoldable pub install_fresh : Result (List ℕ) → Spec → Cache → Result Cache
    install_fresh download spec cache = do
      require (not cache.archive_alias) "JDK download must not be an alias"
      archive ← fetch_archive download spec cache.archive
      verify_archive spec archive
      files ← install spec archive
      ok (record cache { installed = some files; archive = some archive })

    unfoldable pub obtain_spec : Result (List ℕ) → Spec → Cache → Option Tree → Result Cache
    obtain_spec download spec cache (some files) = do check_installed parse spec files; ok cache
    obtain_spec download spec cache none = install_fresh download spec cache

    unfoldable pub obtain_pinned : Result (List ℕ) → Option Spec → Cache → Result (Spec × Cache)
    obtain_pinned download none cache = err "No pinned JDK for this platform; supply --java-home"
    obtain_pinned download (some spec) cache = do
      require (not cache.installed_alias) "JDK installation must not be an alias"
      cache' ← obtain_spec download spec cache cache.installed
      ok (spec, cache')

    -- The spec and the cache afterwards; the home is the one that the spec names in the installation.
    unfoldable pub obtain :
        Result (List ℕ) → List (List ℕ × Spec) → List ℕ → List ℕ → Cache → Result (Spec × Cache)
    obtain download archives platform machine cache =
        obtain_pinned download (pinned_spec platform machine archives) cache
