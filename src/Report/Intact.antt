-- ===== src/Report/Intact.antt =====
-- scripts/art_bundle.py: the application that `verify_embedded` accepts, down to the bytes that its
-- signed images map.
use artbox.Base.{
  ℕ, ◌&&◌, ◌==◌, true, Option, none, some, String, List, [], ◌∷◌, ◌++◌, Result, ok, require-true,
  ◌≡◌, >>=-elim, ==_iff, and-eq-true,
}
use artbox.Base.Text.{codes, ◌≟◌, ≟_iff}
use artbox.Paths.Laws.{Every}
use artbox.WrapDynamic.Macho.{verify_macho}
use artbox.WrapDynamic.Verified.{IsVerified, verify_macho-IsVerified}
use artbox.Report.Value.{Value, same_value}
use artbox.Report.Embedded.{
  Placed, Staged, same_placed, ◌//◌, contents_or, check_digest, check_digests, check_signed,
  bundle_of, check_art_images, check_manifest, verify_art,
}

contents_or-held : (o : Option (List ℕ)) (c : List ℕ) → contents_or o ≡ ok c → o ≡ some c
contents_or-held none c e = cc
contents_or-held (some d) c e = cc

module _ (digest : List ℕ → List ℕ) (files : List ℕ → Option (List ℕ)) where
  -- A file that has the digest that was staged.
  pub record IsIntact (path expected : List ℕ) : Type 0 where
    pub contents : List ℕ
    pub held : files path ≡ some contents
    pub same : digest contents ≡ expected

  abbrev pub AllIntact : List ℕ → List (List ℕ × List ℕ) → Type 0
  AllIntact directory items = Every (λ e. IsIntact (directory // e.0) e.1) items

  check_digest-IsIntact :
      (message : String) (path expected : List ℕ)
      → check_digest digest files message path expected ≡ ok tt
      → IsIntact path expected
  unfolding check_digest
  check_digest-IsIntact message path expected e =
      >>=-elim (contents_or (files path)) e λ contents read rest. record {
        contents = contents;
        held = contents_or-held (files path) contents read;
        same =
            (≟_iff (digest contents) expected).0
              (require-true (digest contents ≟ expected) message rest);
      }

  check_digests-AllIntact :
      (message : String) (directory : List ℕ) (items : List (List ℕ × List ℕ))
      → check_digests digest files message directory items ≡ ok tt
      → AllIntact directory items
  unfolding check_digests
  check_digests-AllIntact message directory [] e = tt
  check_digests-AllIntact message directory (i ∷ is) e =
      >>=-elim (check_digest digest files message (directory // i.0) i.1) e λ _ first rest. (
        check_digest-IsIntact message (directory // i.0) i.1 first,
        check_digests-AllIntact message directory is rest,
      )

  -- A signed image that maps the staged layout where it was staged.
  pub record IsSigned (path : List ℕ) (image : Staged) : Type 0 where
    pub contents : List ℕ
    pub held : files path ≡ some contents
    pub verified : IsVerified digest image.layout contents image.placed

  same_placed→eq : (a b : Placed) → same_placed a b ≡ true → a ≡ b
  same_placed→eq a b h =
      let (rest, whole) = and-eq-true (a.0 == b.0 && a.1 == b.1) (a.2 ≟ b.2) h in
      let (text, writable) = and-eq-true (a.0 == b.0) (a.1 == b.1) rest in
      let first = (==_iff a.0 b.0).0 text in
      let second = (==_iff a.1 b.1).0 writable in
      let third = (≟_iff a.2 b.2).0 whole in λ i. (first i, second i, third i)

  check_signed-IsSigned :
      (message : String) (path : List ℕ) (image : Staged)
      → check_signed digest files message path image ≡ ok tt
      → IsSigned path image
  unfolding check_signed
  check_signed-IsSigned message path image e =
      >>=-elim (contents_or (files path)) e λ contents read e₁.
        >>=-elim (verify_macho digest image.layout contents) e₁ λ placed accepted e₂.
          let is =
            same_placed→eq placed image.placed
              (require-true (same_placed placed image.placed) message e₂) in
          record {
            contents = contents;
            held = contents_or-held (files path) contents read;
            verified =
                verify_macho-IsVerified digest image.layout contents image.placed
                  (rw is at accepted);
          }

  -- An image of the application.
  pub record IsShipped (app resources : List ℕ) (image : Staged) : Type 0 where
    pub elf : IsIntact (resources // codes "ELF" // image.elf) image.elf_sha256
    pub signed :
        IsSigned
          (app // codes "Frameworks" // (image.framework ++ codes ".framework") // image.framework)
          image
    pub notices :
        AllIntact
          (app // codes "Frameworks" // (image.framework ++ codes ".framework"))
          image.notices

  check_art_images-IsShipped :
      (app resources : List ℕ) (images : List Staged)
      → check_art_images digest files app resources images ≡ ok tt
      → Every (IsShipped app resources) images
  unfolding check_art_images
  check_art_images-IsShipped app resources [] e = tt
  check_art_images-IsShipped app resources (image ∷ images) e =
      let bundle = bundle_of digest files app image.framework in
      let elf = resources // codes "ELF" // image.elf in
      >>=-elim (check_digest digest files "Embedded ART ELF changed" elf image.elf_sha256) e
        λ _ packed e₁.
          >>=-elim
            (check_signed digest files "Embedded ART signed image changed"
              (bundle // image.framework) image)
            e₁
            λ _ signed e₂.
              >>=-elim
                (check_digests digest files "Embedded ART notice changed" bundle image.notices) e₂
                λ _ noticed e₃. (
                  record {
                    elf =
                        check_digest-IsIntact "Embedded ART ELF changed" elf image.elf_sha256
                          packed;
                    signed =
                        check_signed-IsSigned "Embedded ART signed image changed"
                          (bundle // image.framework) image signed;
                    notices =
                        check_digests-AllIntact "Embedded ART notice changed" bundle image.notices
                          noticed;
                  },
                  check_art_images-IsShipped app resources images e₃,
                )

  -- What is promised of an application.
  pub record IsEmbedded (parse : List ℕ → Result Value) (app : List ℕ) (staged : Value)
      (images : List Staged) (items : List (List ℕ × List ℕ)) : Type 0 where
    pub text : List ℕ
    pub manifest : files (app // codes "ARTBoxM3" // codes "manifest.json") ≡ some text
    pub found : Value
    pub parsed : parse text ≡ ok found
    pub same : same_value found staged ≡ true
    pub shipped : Every (IsShipped app (app // codes "ARTBoxM3")) images
    pub resources : AllIntact (app // codes "ARTBoxM3" // codes "root") items

  -- In an application that `verify_embedded` of ART accepts, the manifest parses to a value
  -- equal to what was staged; every staged image has its ELF and its notices with the digests
  -- that were staged, and its signed library holds, as `verify_macho` promises it, the guest
  -- sections of the staged layout at the staged addresses; every staged resource has its
  -- digest.
  pub verify_art-IsEmbedded :
      (parse : List ℕ → Result Value) (app : List ℕ) (staged : Value) (images : List Staged)
      (items : List (List ℕ × List ℕ))
      → verify_art digest files parse app staged images items ≡ ok tt
      → IsEmbedded parse app staged images items
  unfolding verify_art check_manifest
  verify_art-IsEmbedded parse app staged images items e =
      let base = app // codes "ARTBoxM3" in
      let manifest_path = base // codes "manifest.json" in
      >>=-elim
        (check_manifest digest files parse "Embedded ART manifest changed" manifest_path staged) e
        λ _ agreed e₁. >>=-elim (check_art_images digest files app base images) e₁ λ _ shipped e₂.
          >>=-elim (contents_or (files manifest_path)) agreed λ text read rest.
            >>=-elim (parse text) rest λ found parsed last. record {
              text = text;
              manifest = contents_or-held (files manifest_path) text read;
              found = found;
              parsed = parsed;
              same = require-true (same_value found staged) "Embedded ART manifest changed" last;
              shipped = check_art_images-IsShipped app base images shipped;
              resources =
                  check_digests-AllIntact "Embedded ART data changed" (base // codes "root") items
                    e₂;
            }
