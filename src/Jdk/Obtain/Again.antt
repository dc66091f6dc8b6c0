-- ===== src/Jdk/Obtain/Again.antt =====
-- scripts/jdk.py: what `obtain` has installed it accepts again, without a download.
use artbox.Base.{
  ℕ, not, true, false, Option, none, some, List, [], ◌∷◌, Result, ok, ◌≡◌, ◌⊎◌, length, ◌==◌, ◌&&◌,
  ==_iff, and-eq-true, require-true, refl, sym, ap, ◌∙◌, arith, inl, inr, Bool-cases, Option-cases,
  >>=-elim, require-elim, ok-injective,
}
use artbox.Base.Text.{codes, ◌≟◌, ≟_iff}
use artbox.Paths.{join}
use artbox.Tree.{Tree, file_at, write_file, is_some}
use artbox.Tree.Writes.{≟-refl, file_at-write_file_same, file_at-write_file_other}
use artbox.Tree.Disk.{Disk}
use artbox.Jdk.{Entry, extract}
use artbox.Jdk.Obtain.{
  Spec, same_spec, Installed, Cache, pinned_spec, marker, check_files, check_installed,
  verify_archive, fetch_archive, digests, install, install_fresh, obtain_spec, obtain_pinned,
  obtain,
}

same_spec_refl : (s : Spec) → same_spec s s ≡ true
same_spec_refl s = rw (≟-refl s.name, ≟-refl s.home, ≟-refl s.root, ≟-refl s.sha256) (ground arith)

module _ (digest : List ℕ → List ℕ) where
  -- The files are as they were when the record was made.
  check_files-digests :
      (text : List ℕ) (files fs : Tree)
      → file_at marker files ≡ none
      → check_files digest (write_file marker text files) (digests digest files fs) ≡ ok tt
  unfolding check_files digests
  check_files-digests text files [] free = refl
  check_files-digests text files (f ∷ fs) free =
      let rest = check_files-digests text files fs free in
      elim (Option-cases (file_at f.0 files)) [
        | inl missing ↦ rw missing rest
        | inr (c, held) ↦ elim (Bool-cases (f.0 ≟ marker)) [
          | inl same ↦ let is : f.0 ≡ marker = (≟_iff f.0 marker).0 same in cc (free, rw is at held)
          | inr other ↦
              let there = file_at-write_file_other f.0 marker text files other ∙ held in
              rw held (rw (there, ≟-refl (digest c)) rest)
        ]
      ]

  verify_archive-facts :
      (spec : Spec) (contents : List ℕ)
      → verify_archive digest spec contents ≡ ok tt
      → (length contents ≡ spec.bytes) × (digest contents ≡ spec.sha256)
  unfolding verify_archive
  verify_archive-facts spec contents e =
      let (sized, hashed) =
        and-eq-true (length contents == spec.bytes) (digest contents ≟ spec.sha256) (
          require-true (length contents == spec.bytes && digest contents ≟ spec.sha256)
            "JDK archive differs from the reviewed checksum" e) in
      (
        (==_iff (length contents) spec.bytes).0 sized,
        (≟_iff (digest contents) spec.sha256).0 hashed,
      )

  module _ (fold : List ℕ → List ℕ) (parse : List ℕ → Result Installed)
      (render : Installed → List ℕ) (read : List ℕ → Result (List Entry)) (java : List ℕ)
      (round_trip : (r : Installed) → parse (render r) ≡ ok r) where
    -- The kit was made from an archive of the pinned size and digest, and this archive has a file at the
    -- path of the marker.
    pub record HasMarker (spec : Spec) (cache : Cache) : Type 0 where
      pub fresh : cache.installed ≡ none
      pub archive : List ℕ
      pub entries : List Entry
      pub disk : Disk
      pub contents : List ℕ
      pub sized : length archive ≡ spec.bytes
      pub hashed : digest archive ≡ spec.sha256
      pub listed : read archive ≡ ok entries
      pub extracted : extract fold spec.root entries ≡ ok disk
      pub held : file_at marker disk.files ≡ some contents

    abbrev AnyMarker : Spec → List ℕ → Type 0
    AnyMarker spec archive =
        (entries : List Entry) × (disk : Disk) × (contents : List ℕ) × (read archive ≡ ok entries)
        × (extract fold spec.root entries ≡ ok disk)
        × (file_at marker disk.files ≡ some contents)

    install_checked :
        (spec : Spec) (archive : List ℕ) (files : Tree)
        → install digest fold parse render read java spec archive ≡ ok files
        → (check_installed digest parse spec files ≡ ok tt) ⊎ AnyMarker spec archive
    unfolding install check_installed
    install_checked spec archive files e = >>=-elim (read archive) e λ entries listed e₁.
        >>=-elim (extract fold spec.root entries) e₁ λ disk extracted e₂.
          require-elim (is_some (file_at (join (join spec.home (codes "bin")) java) disk.files))
            "Portable JDK archive is missing java" e₂
            λ _ e₃.
              let made : Installed = record {
                archive = spec;
                files = digests digest disk.files disk.files;
              } in
              let there = file_at-write_file_same marker (render made) disk.files in
              elim (Option-cases (file_at marker disk.files)) [
                | inr (contents, held) ↦ inr (entries, disk, contents, listed, extracted, held)
                | inl free ↦ inl (
                    rw (sym (ok-injective e₃)) (
                      rw (there, round_trip made, same_spec_refl spec)
                        (check_files-digests (render made) disk.files disk.files free)))
              ]

    -- A cache with an installation that passes its check.
    installed_again :
        (other : Result (List ℕ)) (spec : Spec) (cache : Cache) (files : Tree)
        → cache.installed_alias ≡ false
        → cache.installed ≡ some files
        → check_installed digest parse spec files ≡ ok tt
        → obtain_pinned digest fold parse render read java other (some spec) cache
          ≡ ok (spec, cache)
    unfolding obtain_pinned obtain_spec
    installed_again other spec cache files real there checked = rw (real, there) (rw checked refl)

    pinned_again :
        (download other : Result (List ℕ)) (o : Option Spec) (cache cache' : Cache) (spec : Spec)
        → obtain_pinned digest fold parse render read java download o cache ≡ ok (spec, cache')
        → (obtain_pinned digest fold parse render read java other o cache' ≡ ok (spec, cache'))
          ⊎ HasMarker spec cache
    unfolding obtain_pinned obtain_spec install_fresh
    pinned_again download other none cache cache' spec e = cc
    pinned_again download other (some pinned) cache cache' spec e =
        require-elim (not cache.installed_alias) "JDK installation must not be an alias" e
          λ real e₁.
            >>=-elim
              (obtain_spec digest fold parse render read java download pinned cache cache.installed)
              e₁
              λ after obtained e₂.
                let first : pinned ≡ spec = ap (λ (r : Spec × Cache). r.0) (ok-injective e₂) in
                let second : after ≡ cache' = ap (λ (r : Spec × Cache). r.1) (ok-injective e₂) in
                let at_installed : (o : Option Tree)
                    → cache.installed ≡ o
                    → obtain_spec digest fold parse render read java download pinned cache o
                      ≡ ok after =
                  λ o is.
                    ap
                      (λ (t : Option Tree).
                        obtain_spec digest fold parse render read java download pinned cache t)
                      (sym is)
                    ∙ obtained in
                rw (sym first, sym second)
                  (elim (Option-cases cache.installed) [
                    | inr (files, there) ↦
                        >>=-elim (check_installed digest parse pinned files)
                          (at_installed (some files) there)
                          λ _ checked same.
                            let is : cache ≡ after = ok-injective same in
                            inl (
                              rw (sym is) (
                                installed_again other pinned cache files (ground arith) there
                                  checked))
                    | inl fresh ↦
                        require-elim (not cache.archive_alias) "JDK download must not be an alias"
                          (at_installed none fresh)
                          λ _ e₃.
                            >>=-elim (fetch_archive digest download pinned cache.archive) e₃
                              λ archive _ e₄.
                                >>=-elim (verify_archive digest pinned archive) e₄ λ _ verified e₅.
                                  >>=-elim
                                    (install digest fold parse render read java pinned archive) e₅
                                    λ files made e₆.
                                      elim (install_checked pinned archive files made) [
                                        | inl checked ↦ inl (
                                            rw (sym (ok-injective e₆)) (
                                              installed_again other pinned
                                                (record cache {
                                                  installed = some files;
                                                  archive = some archive;
                                                })
                                                files (ground arith) refl checked))
                                        | inr (entries, disk, contents, listed, extracted, held) ↦
                                            let (sized, hashed) =
                                              verify_archive-facts pinned archive verified in
                                            inr (record {
                                              fresh = fresh;
                                              archive = archive;
                                              entries = entries;
                                              disk = disk;
                                              contents = contents;
                                              sized = sized;
                                              hashed = hashed;
                                              listed = listed;
                                              extracted = extracted;
                                              held = held;
                                            })
                                      ]
                  ])

    -- If the text of a record reads back as the record, then after `obtain` has returned a JDK,
    -- calling it again on the cache that it leaves returns the same JDK and leaves the cache as
    -- it is, whatever a download would give; or nothing was installed before, and an archive
    -- that has the size and SHA-256 of the pin extracts to files of which one is at the path of
    -- the marker.
    pub obtain_again :
        (download other : Result (List ℕ)) (archives : List (List ℕ × Spec))
        (platform machine : List ℕ) (cache cache' : Cache) (spec : Spec)
        → obtain digest fold parse render read java download archives platform machine cache
          ≡ ok (spec, cache')
        → (obtain digest fold parse render read java other archives platform machine cache'
            ≡ ok (spec, cache'))
          ⊎ HasMarker spec cache
    unfolding obtain
    obtain_again download other archives platform machine cache cache' spec e =
        pinned_again download other (pinned_spec platform machine archives) cache cache' spec e
