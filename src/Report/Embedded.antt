-- ===== src/Report/Embedded.antt =====
-- scripts/art_bundle.py and scripts/service_bundle.py: `verify_embedded`, which checks the files in a
-- finished application against what was staged. The content of a file is a function from its path;
-- JSON text is a parameter.
use artbox.Base.{
  ℕ, ◌&&◌, ◌==◌, Bool, Option, none, some, String, List, [], ◌∷◌, ◌++◌, Result, ok, err, require,
  ◌>>=◌, ◌>>◌,
}
use artbox.Base.Text.{codes, ◌≟◌}
use artbox.Paths.{slash}
use artbox.WrapDynamic.Layout.{PackedLayout}
use artbox.WrapDynamic.Macho.{verify_macho}
use artbox.Report.Value.{Value, same_value}

-- What `verify_macho` returns: the two addresses and the digest of the file.
abbrev pub Placed : Type 0
Placed = ℕ × ℕ × List ℕ

-- An entry of `staged['images']`, with the proof and the notices of the iOS framework.
pub record Staged : Type 0 where
  pub framework : List ℕ
  pub elf : List ℕ
  pub elf_sha256 : List ℕ
  pub layout : PackedLayout
  pub placed : Placed
  pub notices : List (List ℕ × List ℕ)

abbrev pub same_placed : Placed → Placed → Bool
same_placed a b = a.0 == b.0 && a.1 == b.1 && a.2 ≟ b.2

-- `path / name`
infixl 60 ◌//◌
abbrev pub ◌//◌ : List ℕ → List ℕ → List ℕ
path // name = path ++ slash ∷ name

abbrev pub contents_or : Option (List ℕ) → Result (List ℕ)
contents_or none = err "FileNotFoundError"
contents_or (some contents) = ok contents

module _ (digest : List ℕ → List ℕ) (files : List ℕ → Option (List ℕ)) where
  -- `require(digest(path) == expected, message)`
  unfoldable pub check_digest : String → List ℕ → List ℕ → Result (Unit {0})
  check_digest message path expected = do
    contents ← contents_or (files path)
    require (digest contents ≟ expected) message

  -- A loop of those below a directory.
  unfoldable pub check_digests : String → List ℕ → List (List ℕ × List ℕ) → Result (Unit {0})
  check_digests message directory [] = ok tt
  check_digests message directory (e ∷ es) = do
    check_digest message (directory // e.0) e.1
    check_digests message directory es

  unfoldable pub check_signed : String → List ℕ → Staged → Result (Unit {0})
  check_signed message path image = do
    contents ← contents_or (files path)
    placed ← verify_macho digest image.layout contents
    require (same_placed placed image.placed) message

  abbrev pub bundle_of : List ℕ → List ℕ → List ℕ
  bundle_of app name = app // codes "Frameworks" // (name ++ codes ".framework")

  -- `for item in staged['images']` of the ART bundle.
  unfoldable pub check_art_images : List ℕ → List ℕ → List Staged → Result (Unit {0})
  check_art_images app resources [] = ok tt
  check_art_images app resources (image ∷ images) = do
    check_digest "Embedded ART ELF changed" (resources // codes "ELF" // image.elf) image.elf_sha256
    check_signed "Embedded ART signed image changed"
        (bundle_of app image.framework // image.framework) image
    check_digests "Embedded ART notice changed" (bundle_of app image.framework) image.notices
    check_art_images app resources images

  -- `for item in staged['images']` of the service bundle.
  unfoldable pub check_service_images : List ℕ → List ℕ → List Staged → Result (Unit {0})
  check_service_images app resources [] = ok tt
  check_service_images app resources (image ∷ images) = do
    check_digest "Embedded service ELF changed" (resources // codes "ELF" // image.elf)
        image.elf_sha256
    check_signed "Embedded signed service image changed"
        (bundle_of app image.framework // image.framework) image
    check_digests "Embedded service notice changed" (bundle_of app image.framework) image.notices
    check_service_images app resources images

  module _ (parse : List ℕ → Result Value) where
    -- `require(json.loads(path.read_bytes()) == staged, message)`
    unfoldable pub check_manifest : String → List ℕ → Value → Result (Unit {0})
    check_manifest message path staged = do
      text ← contents_or (files path)
      found ← parse text
      require (same_value found staged) message

    -- `staged` is given as its JSON value and as the images and resources that are read from it.
    unfoldable pub verify_art :
        List ℕ → Value → List Staged → List (List ℕ × List ℕ) → Result (Unit {0})
    verify_art app staged images items = do
      let resources = app // codes "ARTBoxM3"
      check_manifest "Embedded ART manifest changed" (resources // codes "manifest.json") staged
      check_art_images app resources images
      check_digests "Embedded ART data changed" (resources // codes "root") items

    unfoldable pub verify_service : List ℕ → Value → List Staged → Result (Unit {0})
    verify_service app staged images = do
      let resources = app // codes "ARTBoxM4"
      check_manifest "Embedded service manifest changed" (resources // codes "manifest.json") staged
      check_service_images app resources images
