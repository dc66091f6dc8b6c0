-- ===== src/Reference/Prepared.antt =====
-- scripts/binder_reference.py: what `prepare` leaves in the cache, and that it accepts this again.
use artbox.Base.{
  ℕ, ◌==◌, ◌&&◌, not, true, Option, none, some, List, length, Result, ok, ◌≡◌, refl, sym, ap, arith,
  and-eq-true, >>=-elim, require-elim, require-true, ok-injective,
}
use artbox.Base.Text.{◌≟◌, ≟_iff}
use artbox.Sources.Plan.{not-true}
use artbox.Tree.{Tree, file_at}
use artbox.Jdk.Obtain.{or_missing}
use artbox.Reference.{name_of}
use artbox.Reference.Archive.{Pinned, Packed, check_contents}
use artbox.Reference.Prepare.{
  Package, same_package, Depot, check_package, pin_name, check_file, fetch_package, install_package,
  check_package_files, prepare_reference,
}

-- Contents of the pinned size and digest.
pub record IsPinned (digest : List ℕ → List ℕ) (pin : Pinned) (held : Option (List ℕ))
    : Type 0 where
  pub contents : List ℕ
  pub there : held ≡ some contents
  pub sized : length contents ≡ pin.bytes
  pub hashed : digest contents ≡ pin.sha256

module _ (digest : List ℕ → List ℕ) where
  check_file-IsPinned :
      (pin : Pinned) (held : Option (List ℕ))
      → check_file digest pin held ≡ ok tt
      → IsPinned digest pin held
  unfolding check_file check_contents
  check_file-IsPinned pin none e = cc
  check_file-IsPinned pin (some contents) e =
      let same = and-eq-true (length contents == pin.bytes) (digest contents ≟ pin.sha256) (
        require-true (length contents == pin.bytes && digest contents ≟ pin.sha256)
          "Pinned Binder reference bytes differ" e) in
      record {
        contents = contents;
        there = refl;
        sized = ground arith;
        hashed = (≟_iff (digest contents) pin.sha256).0 same.1;
      }

  module _ (parse : List ℕ → Result Package) (render : Package → List ℕ)
      (read_tar : List ℕ → Result (List Packed)) (url_path : List ℕ → List ℕ) where
    -- The cache after `prepare`: the archive and the two files of the pinned size and digest, in a
    -- directory whose record is that of the package; what was there before is kept.
    pub record IsPrepared (spec : Package) (before after : Depot) (files : Tree) : Type 0 where
      pub installed : after.installed ≡ some files
      pub archived : IsPinned digest spec.pinned after.archive
      pub driver : IsPinned digest spec.module_pin (file_at (name_of spec.module_path) files)
      pub notice : IsPinned digest spec.notice_pin (file_at (name_of spec.notice_path) files)
      pub recorded :
          (text : List ℕ) × (found : Package) × (file_at pin_name files ≡ some text)
          × (parse text ≡ ok found)
          × (same_package found spec ≡ true)
      pub kept : (tree : Tree) → before.installed ≡ some tree → files ≡ tree
      pub again :
          (other : Result (List ℕ))
          → prepare_reference digest parse render read_tar url_path other spec after
            ≡ ok (files, after)

    recorded_package :
        (spec : Package) (files : Tree)
        → check_package_files digest parse render read_tar spec files ≡ ok tt
        → IsPinned digest spec.module_pin (file_at (name_of spec.module_path) files)
          × IsPinned digest spec.notice_pin (file_at (name_of spec.notice_path) files)
          × (text : List ℕ) × (found : Package) × (file_at pin_name files ≡ some text)
          × (parse text ≡ ok found)
          × (same_package found spec ≡ true)
    unfolding check_package_files
    recorded_package spec files e = >>=-elim (or_missing (file_at pin_name files)) e λ text read e₁.
        >>=-elim (parse text) e₁ λ found parsed e₂.
          require-elim (same_package found spec) "Reference cache provenance differs" e₂ λ same e₃.
            >>=-elim (check_file digest spec.module_pin (file_at (name_of spec.module_path) files))
              e₃
              λ _ first second. (
                check_file-IsPinned spec.module_pin (file_at (name_of spec.module_path) files)
                    first,
                check_file-IsPinned spec.notice_pin (file_at (name_of spec.notice_path) files)
                    second,
                text,
                found,
                held (file_at pin_name files) text read,
                parsed,
                same,
              )
      where
        held : (o : Option (List ℕ)) (text : List ℕ) → or_missing o ≡ ok text → o ≡ some text
        held none text h = cc
        held (some c) text h = ap (λ (t : List ℕ). some t) (ok-injective h)

    installed_files :
        (spec : Package) (archive : List ℕ) (before : Option Tree) (files tree : Tree)
        → install_package digest parse render read_tar spec archive before ≡ ok files
        → before ≡ some tree
        → files ≡ tree
    unfolding install_package
    installed_files spec archive none files tree e is = cc
    installed_files spec archive (some old) files tree e is = cc

    -- If `prepare` returns, the archive in the cache, the module and the notice in the returned
    -- directory have their pinned sizes and digests, and the directory's record parses to the
    -- package; a directory that was installed before is the one returned. Called again on the
    -- cache that it left, it returns the same and changes nothing, whatever a download would
    -- give.
    pub prepare_reference-IsPrepared :
        (download : Result (List ℕ)) (spec : Package) (before after : Depot) (files : Tree)
        → prepare_reference digest parse render read_tar url_path download spec before
          ≡ ok (files, after)
        → IsPrepared spec before after files
    unfolding prepare_reference fetch_package install_package
    prepare_reference-IsPrepared download spec before after files e =
        >>=-elim (check_package url_path spec) e λ _ checked e₁.
          >>=-elim (fetch_package digest download spec before.partial_alias before.archive) e₁
            λ archive fetched e₂.
              >>=-elim (check_file digest spec.pinned (some archive)) e₂ λ _ archived e₃.
                require-elim (not before.installed_alias) "Refusing redirected reference directory"
                  e₃
                  λ real e₄.
                    >>=-elim
                      (install_package digest parse render read_tar spec archive before.installed)
                      e₄
                      λ tree made e₅.
                        >>=-elim (check_package_files digest parse render read_tar spec tree) e₅
                          λ _ found e₆.
                            let first = ap (λ (x : Tree × Depot). x.0) (ok-injective e₆) in
                            let second = ap (λ (x : Tree × Depot). x.1) (ok-injective e₆) in
                            let pinned = recorded_package spec tree found in
                            let safe = not-true real in
                            rw (sym first, sym second)
                              (record {
                                installed = refl;
                                archived = check_file-IsPinned spec.pinned (some archive) archived;
                                driver = pinned.0;
                                notice = pinned.1;
                                recorded = (pinned.2, pinned.3, pinned.4, pinned.5, pinned.6);
                                kept = λ old is.
                                    installed_files spec archive before.installed tree old made is;
                                again = λ other. rw (checked, archived, safe, found) refl;
                              })
