-- ===== src/Ndk/Links.antt =====
-- scripts/ndk.py: which links `extract` notes, and where it makes them.
use mathlib.Core.List.{append_assoc}
use artbox.Base.{
  ℕ, ◌&&◌, ◌||◌, not, Bool, true, false, Option, none, some, List, [], ◌∷◌, ◌++◌, Result, ok, err,
  ◌≡◌, ◌⊎◌, inl, inr, refl, sym, ap, ◌∙◌, Bool-cases, >>=-elim, require-elim, ok-injective, arith,
  ++-nil, ++-assoc_one,
}
use artbox.Base.Utf8.{decode}
use artbox.Jdk.Entries.{is_link_mode}
use artbox.Paths.{ends_in_slash, contains, is_absolute, parts, as_posix, dirname, join, parents}
use artbox.Paths.Laws.{Every}
use artbox.Sources.Archive.{first_is}
use artbox.Sources.Plan.{Distinct, Distinct-append}
use artbox.Tree.{file_at, paths_of, is_some}
use artbox.Tree.Disk.{make_directory, write_new, exists, is_directory_at}
use artbox.Tree.Growth.{make_directory-files}
use artbox.Ndk.{
  toolkit, NdkMember, Alias, Toolchain, mode_of, is_unsafe_filename, zip_link, zip_file,
  zip_directory, extract_as, extract_zipped, extract_zipped_all, make_link, make_links,
}

-- The link that a member is, with the text of its bytes.
abbrev pub link_of : Bool → Bool → List ℕ → Result (List ℕ) → List Alias
link_of true link path text = []
link_of false false path text = []
link_of false true path (err message) = []
link_of false true path (ok target) = (path, target) ∷ []

-- The links of the archive, in its order.
abbrev pub links_of : List NdkMember → List Alias
links_of [] = []
links_of (m ∷ ms) =
    link_of (ends_in_slash m.filename) (is_link_mode (mode_of m)) (as_posix (parts m.filename))
      (decode m.contents)
    ++ links_of ms

extract_as-links :
    (posix : Bool) (stays : List ℕ → Bool) (folder link : Bool) (m : NdkMember) (path : List ℕ)
    (x x' : Toolchain)
    → extract_as posix stays folder link m path x ≡ ok x'
    → x'.links ≡ x.links ++ link_of folder link path (decode m.contents)
unfolding extract_as zip_directory zip_link zip_file
extract_as-links posix stays true link m path x x' e =
    >>=-elim (make_directory path x.disk) e
      λ disk made last. rw (sym (ok-injective last)) (sym (++-nil x.links))
extract_as-links posix stays false false m path x x' e =
    >>=-elim (write_new path m.contents x.disk) e
      λ disk written last. rw (sym (ok-injective last)) (sym (++-nil x.links))
extract_as-links posix stays false true m path x x' e =
    >>=-elim (decode m.contents) e λ target decoded e₁.
      require-elim (not (is_absolute target) && stays (join (dirname path) target))
        "NDK symlink escapes extraction root" e₁
        λ good last. rw (sym (ok-injective last), decoded) refl

pub extract_zipped_all-links :
    (posix : Bool) (stays : List ℕ → Bool) (members : List NdkMember) (x x' : Toolchain)
    → extract_zipped_all posix stays members x ≡ ok x'
    → x'.links ≡ x.links ++ links_of members
unfolding extract_zipped_all extract_zipped
extract_zipped_all-links posix stays [] x x' e = rw (sym (ok-injective e)) (sym (++-nil x.links))
extract_zipped_all-links posix stays (m ∷ ms) x x' e =
    >>=-elim (extract_zipped posix stays m x) e λ next first rest.
      require-elim (not (is_unsafe_filename m.filename)) "NDK archive contains an unsafe path" first
        λ safe r₁.
          require-elim (first_is toolkit (parts m.filename)) "Unexpected NDK archive root" r₁
            λ rooted r₂.
              let folder = ends_in_slash m.filename in
              let link = is_link_mode (mode_of m) in
              let path = as_posix (parts m.filename) in
              let step = extract_as-links posix stays folder link m path x next r₂ in
              extract_zipped_all-links posix stays ms next x' rest
              ∙ ap (λ (ls : List Alias). ls ++ links_of ms) step
              ∙ append_assoc x.links (link_of folder link path (decode m.contents)) (links_of ms)

paths_of-append :
    (links : List Alias) (link : Alias)
    → paths_of (links ++ link ∷ []) ≡ paths_of links ++ link.0 ∷ []
unfolding paths_of
paths_of-append [] link = refl
paths_of-append (l ∷ ls) link = ap (l.0 ∷◌) (paths_of-append ls link)

no_file :
    (o : Option (List ℕ)) (more taken : Bool) → not ((is_some o || more) || taken) ≡ true → o ≡ none
no_file none more taken h = refl
no_file (some c) more taken h = cc

not_taken : (a b : Bool) → not (a || b) ≡ true → b ≡ false
not_taken a b h = ground arith

abbrev any_in : List (List ℕ) → List (List ℕ) → Bool
any_in [] ys = false
any_in (x ∷ xs) ys = contains x ys || any_in xs ys

-- One of the links that were made is at a parent of the path.
abbrev pub passes : List Alias → List ℕ → Bool
passes before path = any_in (parents path) (paths_of before)

-- Without a link at a parent of a path, an entry that is made at the path is there.
abbrev pub IsDirect : (List Alias → List ℕ → Result (List ℕ)) → Type 0
IsDirect follow =
    (before : List Alias) (path : List ℕ)
    → passes before path ≡ false
    → follow before path ≡ ok path

module _ (follow : List Alias → List ℕ → Result (List ℕ)) where
  -- The links that were made, one for each of the archive and in their order: with its target, and at
  -- the place where its path leads through the links before it, which is the path itself if none of
  -- these is at a parent of the path.
  abbrev pub ArePlaced : List Alias → List Alias → List Alias → Type 0
  ArePlaced before [] [] = Unit
  ArePlaced before [] (m ∷ ms) = ⊥
  ArePlaced before (l ∷ ls) [] = ⊥
  ArePlaced before (l ∷ ls) (m ∷ ms) =
      (follow before l.0 ≡ ok m.0)
      × ((m.0 ≡ l.0) ⊎ (passes before l.0 ≡ true))
      × (m.1 ≡ l.1)
      × ArePlaced (before ++ m ∷ []) ls ms

  -- The links are made in order, each where there is neither a file nor another link.
  pub record IsMade (links : List Alias) (x x' : Toolchain) : Type 0 where
    pub files : x'.disk.files ≡ x.disk.files
    pub made : List Alias
    pub added : x'.links ≡ x.links ++ made
    pub placed : ArePlaced x.links links made
    pub alone : Every (λ link. file_at link.0 x.disk.files ≡ none) made
    pub distinct : Distinct (paths_of x'.links)

  straight :
      (before : List Alias) (path place : List ℕ)
      → IsDirect follow
      → follow before path ≡ ok place
      → (place ≡ path) ⊎ (passes before path ≡ true)
  straight before path place direct e = elim (Bool-cases (passes before path)) [
    | inl through ↦ inr through
    | inr clear ↦ inl (ok-injective (sym e ∙ direct before path clear))
  ]

  pub make_links-IsMade :
      (links : List Alias) (x x' : Toolchain)
      → IsDirect follow
      → Distinct (paths_of x.links)
      → make_links follow links x ≡ ok x'
      → IsMade links x x'
  unfolding make_links make_link exists
  make_links-IsMade [] x x' direct apart e = rw (sym (ok-injective e)) (record {
    files = refl;
    made = [];
    added = sym (++-nil x.links);
    placed = tt;
    alone = tt;
    distinct = apart;
  })
  make_links-IsMade (l ∷ ls) x x' direct apart e =
      >>=-elim (make_link follow l x) e λ next first rest.
        >>=-elim (follow x.links l.0) first λ place found r₀.
          >>=-elim (make_directory (dirname place) x.disk) r₀ λ disk made r₁.
            require-elim
              (not (
                (is_some (file_at place disk.files) || is_directory_at place disk)
                || contains place (paths_of x.links)))
              "FileExistsError" r₁
              λ free last.
                let same = make_directory-files (dirname place) x.disk disk made in
                let absent =
                  no_file (file_at place disk.files) (is_directory_at place disk)
                    (contains place (paths_of x.links)) free in
                let fresh =
                  not_taken (is_some (file_at place disk.files) || is_directory_at place disk)
                    (contains place (paths_of x.links)) free in
                let link : Alias = (place, l.1) in
                let stepped : Toolchain = record { disk = disk; links = x.links ++ (link ∷ []) } in
                let is : stepped ≡ next = ok-injective last in
                let apart' : Distinct (paths_of stepped.links) =
                  rw (paths_of-append x.links link)
                    (Distinct-append (paths_of x.links) place apart fresh) in
                let loop = make_links-IsMade ls stepped x' direct apart' (rw (sym is) at rest) in
                record {
                  files = loop.files ∙ same;
                  made = link ∷ loop.made;
                  added = loop.added ∙ ++-assoc_one x.links link loop.made;
                  placed = (found, straight x.links l.0 place direct found, refl, loop.placed);
                  alone = (rw same at absent, rw same at loop.alone);
                  distinct = loop.distinct;
                }
