-- ===== src/Ndk/Extracted.antt =====
-- scripts/ndk.py: what `extract` leaves when it returns.
use artbox.Base.{
  ℕ, ◌==◌, ◌&&◌, not, Bool, true, false, none, some, List, [], ◌∷◌, ◌++◌, Result, ok, ◌≡◌, ◌⊎◌, inl,
  inr, refl, sym, ap, ◌∙◌, Bool-cases, and-eq-true, >>=-elim, require-elim, ok-injective, arith,
}
use artbox.Base.Text.{◌≟◌, ≟_iff}
use artbox.Base.Utf8.{decode}
use artbox.Jdk.Entries.{is_link_mode}
use artbox.Paths.{ends_in_slash, is_absolute, parts, as_posix, join_slash, dirname, join}
use artbox.Paths.Laws.{Every, IsPart, parts-IsPart}
use artbox.Sources.Archive.{first_is}
use artbox.Sources.Plan.{Distinct, not-true}
use artbox.Tree.{file_at, write_file, paths_of}
use artbox.Tree.Disk.{Disk, make_directory, write_new, set_mode}
use artbox.Tree.Writes.{file_at-write_file_other}
use artbox.Tree.Growth.{
  paths_of-write_file-Every, write_file-origin, write_new-files, make_directory-files,
}
use artbox.Ndk.Links.{IsDirect, ArePlaced, links_of, extract_zipped_all-links, make_links-IsMade}
use artbox.Ndk.{
  toolkit, NdkMember, Alias, Toolchain, no_toolchain, mode_of, is_unsafe_filename, with_mode,
  zip_link, zip_file, zip_directory, extract_as, extract_zipped, extract_zipped_all, extract_ndk,
}

-- The root of the kit, or a path below it.
pub record IsToolPath (path : List ℕ) : Type 0 where
  pub words : List (List ℕ)
  pub spelled : path ≡ join_slash (toolkit ∷ words)
  pub safe : Every IsPart words

tool_path :
    (filename : List ℕ) (ws : List (List ℕ))
    → parts filename ≡ ws
    → Every IsPart ws
    → first_is toolkit ws ≡ true
    → IsToolPath (as_posix ws)
unfolding as_posix
tool_path filename [] is safe first = cc
tool_path filename (w ∷ ws) is safe first =
    let same : w ≡ toolkit = (≟_iff w toolkit).0 first in
    record { words = ws; spelled = ap (λ v. join_slash (v ∷ ws)) same; safe = safe.1 }

member_path :
    (filename : List ℕ)
    → is_unsafe_filename filename ≡ false
    → first_is toolkit (parts filename) ≡ true
    → IsToolPath (as_posix (parts filename))
member_path filename safe first =
    tool_path filename (parts filename) refl
      (parts-IsPart filename (ground arith) (ground arith) (ground arith)) first

-- Some member has this path and these bytes.
abbrev pub IsFrom : List ℕ → List ℕ → List NdkMember → Type 0
IsFrom path contents [] = ⊥
IsFrom path contents (m ∷ ms) =
    ((path ≡ as_posix (parts m.filename)) × (contents ≡ m.contents)) ⊎ IsFrom path contents ms

with_mode-files :
    (posix : Bool) (mode : ℕ) (path : List ℕ) (disk : Disk)
    → (with_mode posix mode path disk).files ≡ disk.files
unfolding set_mode
with_mode-files posix mode path disk = elim (Bool-cases (posix && not (mode == 0))) [
  | inl set ↦ rw set refl
  | inr unset ↦ rw unset refl
]

module _ (stays : List ℕ → Bool) where
  -- A relative target that leads to a place inside of the destination.
  pub record IsLink (link : Alias) : Type 0 where
    pub placed : IsToolPath link.0
    pub relative : is_absolute link.1 ≡ false
    pub inside : stays (join (dirname link.0) link.1) ≡ true

  record IsState (x : Toolchain) : Type 0 where
    files : Every IsToolPath (paths_of x.disk.files)
    links : Every IsLink x.links

  record IsStep (m : NdkMember) (x x' : Toolchain) : Type 0 where
    state : IsState x'
    origin :
        (path c : List ℕ)
        → file_at path x'.disk.files ≡ some c
        → (file_at path x.disk.files ≡ some c)
          ⊎ ((path ≡ as_posix (parts m.filename)) × (c ≡ m.contents))

  Every-append :
      (links : List Alias) (link : Alias)
      → Every IsLink links
      → IsLink link
      → Every IsLink (links ++ link ∷ [])
  Every-append [] link all last = (last, tt)
  Every-append (l ∷ ls) link all last = (all.0, Every-append ls link all.1 last)

  zip_directory-IsStep :
      (m : NdkMember) (path : List ℕ) (x x' : Toolchain)
      → IsState x
      → zip_directory path x ≡ ok x'
      → IsStep m x x'
  unfolding zip_directory
  zip_directory-IsStep m path x x' s e = >>=-elim (make_directory path x.disk) e λ disk made last.
      let same = make_directory-files path x.disk disk made in
      rw (sym (ok-injective last)) (record {
        state = record { files = rw same s.files; links = s.links };
        origin = λ p c held. inl (rw same at held);
      })

  zip_link-IsStep :
      (posix : Bool) (m : NdkMember) (path : List ℕ) (x x' : Toolchain)
      → IsToolPath path
      → IsState x
      → zip_link posix stays m path x ≡ ok x'
      → IsStep m x x'
  unfolding zip_link
  zip_link-IsStep posix m path x x' placed s e = >>=-elim (decode m.contents) e λ target decoded e₁.
      require-elim (not (is_absolute target) && stays (join (dirname path) target))
        "NDK symlink escapes extraction root" e₁
        λ good last.
          let (relative, inside) =
            and-eq-true (not (is_absolute target)) (stays (join (dirname path) target)) good in
          rw (sym (ok-injective last)) (record {
            state = record {
              files = s.files;
              links =
                  Every-append x.links (path, target) s.links
                    (record { placed = placed; relative = not-true relative; inside = inside });
            };
            origin = λ p c held. inl held;
          })

  zip_file-IsStep :
      (posix : Bool) (m : NdkMember) (x x' : Toolchain)
      → IsToolPath (as_posix (parts m.filename))
      → IsState x
      → zip_file posix stays m (as_posix (parts m.filename)) x ≡ ok x'
      → IsStep m x x'
  unfolding zip_file
  zip_file-IsStep posix m x x' placed s e =
      let path = as_posix (parts m.filename) in
      >>=-elim (write_new path m.contents x.disk) e λ disk written last.
        let same : (with_mode posix (mode_of m) path disk).files
            ≡ write_file path m.contents x.disk.files =
          with_mode-files posix (mode_of m) path disk
          ∙ write_new-files path m.contents x.disk disk written in
        rw (sym (ok-injective last)) (record {
          state = record {
            files =
                rw same (
                  paths_of-write_file-Every IsToolPath path m.contents x.disk.files placed s.files);
            links = s.links;
          };
          origin = λ p c held. elim (Bool-cases (p ≟ path)) [
            | inl here ↦
                elim (write_file-origin path m.contents p c x.disk.files (rw same at held)) [
                  | inl old ↦ inl old
                  | inr new ↦ inr ((≟_iff p path).0 here, new)
                ]
            | inr other ↦ inl (
                sym (file_at-write_file_other p path m.contents x.disk.files other)
                ∙ (rw same at held))
          ];
        })

  extract_as-IsStep :
      (posix folder link : Bool) (m : NdkMember) (x x' : Toolchain)
      → IsToolPath (as_posix (parts m.filename))
      → IsState x
      → extract_as posix stays folder link m (as_posix (parts m.filename)) x ≡ ok x'
      → IsStep m x x'
  unfolding extract_as
  extract_as-IsStep posix true link m x x' placed s e =
      zip_directory-IsStep m (as_posix (parts m.filename)) x x' s e
  extract_as-IsStep posix false true m x x' placed s e =
      zip_link-IsStep posix m (as_posix (parts m.filename)) x x' placed s e
  extract_as-IsStep posix false false m x x' placed s e = zip_file-IsStep posix m x x' placed s e

  record IsLoop (members : List NdkMember) (x x' : Toolchain) : Type 0 where
    state : IsState x'
    origin :
        (path c : List ℕ)
        → file_at path x'.disk.files ≡ some c
        → (file_at path x.disk.files ≡ some c) ⊎ IsFrom path c members

  extract_zipped_all-IsLoop :
      (posix : Bool) (members : List NdkMember) (x x' : Toolchain)
      → IsState x
      → extract_zipped_all posix stays members x ≡ ok x'
      → IsLoop members x x'
  unfolding extract_zipped_all extract_zipped
  extract_zipped_all-IsLoop posix [] x x' s e =
      rw (sym (ok-injective e)) (record { state = s; origin = λ p c held. inl held })
  extract_zipped_all-IsLoop posix (m ∷ ms) x x' s e =
      >>=-elim (extract_zipped posix stays m x) e λ next first rest.
        require-elim (not (is_unsafe_filename m.filename)) "NDK archive contains an unsafe path"
          first
          λ safe r₁.
            require-elim (first_is toolkit (parts m.filename)) "Unexpected NDK archive root" r₁
              λ rooted r₂.
                let step =
                  extract_as-IsStep posix (ends_in_slash m.filename) (is_link_mode (mode_of m)) m x
                    next (member_path m.filename (not-true safe) rooted) s r₂ in
                let loop = extract_zipped_all-IsLoop posix ms next x' step.state rest in
                record {
                  state = loop.state;
                  origin = λ p c held. elim (loop.origin p c held) [
                    | inr later ↦ inr (inr later)
                    | inl before ↦ elim (step.origin p c before) [
                      | inl old ↦ inl old
                      | inr here ↦ inr (inl here)
                    ]
                  ];
                }

module _ (follow : List Alias → List ℕ → Result (List ℕ)) where
  -- What `extract` promises of the directory that it was given empty.
  pub record IsKit (stays : List ℕ → Bool) (members : List NdkMember) (kit : Toolchain)
      : Type 0 where
    pub files : Every IsToolPath (paths_of kit.disk.files)
    pub origin : (path c : List ℕ) → file_at path kit.disk.files ≡ some c → IsFrom path c members
    pub links : Every (IsLink stays) (links_of members)
    pub placed : ArePlaced follow [] (links_of members) kit.links
    pub alone : Every (λ link. file_at link.0 kit.disk.files ≡ none) kit.links
    pub distinct : Distinct (paths_of kit.links)

  -- If an entry that is made at a path without a link at one of its parents is there, and
  -- `extract` of the NDK returns: every file that it has written is at the root of the kit or
  -- below it, at a path without dot-dot, colon and backslash, and has the bytes of a member
  -- with this path. One link was made for each link of the archive, in order, with its target
  -- and where its path leads through the links made before it, which is the path itself unless
  -- one of these is at a parent of the path; each path of a link in the archive is of the same
  -- kind as those of the files, and its target is relative and leads from there to a place
  -- inside of the destination, by the check before any link is made; no link is where a file
  -- is, and no two are at one place.
  pub extract_ndk-IsKit :
      (direct : IsDirect follow) (posix : Bool) (stays : List ℕ → Bool) (members : List NdkMember)
      (kit : Toolchain)
      → extract_ndk follow posix stays members ≡ ok kit
      → IsKit stays members kit
  unfolding extract_ndk paths_of file_at
  extract_ndk-IsKit direct posix stays members kit e =
      >>=-elim (extract_zipped_all posix stays members no_toolchain) e λ x extracted rest.
        let loop =
          extract_zipped_all-IsLoop stays posix members no_toolchain x
            (record { files = tt; links = tt }) extracted in
        let is : x.links ≡ links_of members =
          extract_zipped_all-links posix stays members no_toolchain x extracted in
        let last = make_links-IsMade follow x.links (record x { links = [] }) kit direct tt rest in
        record {
          files = rw (sym last.files) at loop.state.files;
          origin = λ p c held. elim (loop.origin p c (rw last.files at held)) [
            | inl never ↦ cc
            | inr found ↦ found
          ];
          links = rw is at loop.state.links;
          placed = rw (is, sym last.added) at last.placed;
          alone = rw (sym last.added, sym last.files) at last.alone;
          distinct = last.distinct;
        }
