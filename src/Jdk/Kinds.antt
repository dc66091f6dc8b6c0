-- ===== src/Jdk/Kinds.antt =====
-- scripts/jdk.py: `extract`, what one entry does to the files.
use artbox.Base.{
  ℕ, ◌&&◌, false, some, List, [], ◌∷◌, length, ok, ◌≡◌, ◌⊎◌, inl, inr, refl, sym, arith, >>=-elim,
  require-elim, ok-injective,
}
use artbox.Base.Int.{pos, leb_ℤ}
use artbox.Base.Text.{◌≟◌}
use artbox.Paths.{dot, parts, as_posix}
use artbox.Paths.Laws.{Every}
use artbox.Sources.Archive.{is_unsafe, rest_of}
use artbox.Sources.Plan.{IsInside, inside}
use artbox.Tree.{Tree, file_at, write_file, paths_of}
use artbox.Tree.Disk.{Disk, make_directory, write_new, set_mode}
use artbox.Jdk.{
  EntryKind, Entry, Extraction, extract_file, alias_target, extract_link, extract_kind,
}
use artbox.Tree.Growth.{paths_of-write_file-Every, write_new-files, make_directory-files}

-- Where an entry stands below the root.
abbrev pub relative : Entry → List ℕ
relative e = as_posix (rest_of (parts e.name))

abbrev pub IsFile : Entry → Type 0
IsFile e = e.kind ≡ EntryKind.file

-- What the directory holds for an entry: a file has its bytes, as many as the archive says.
abbrev pub Kept : Entry → Tree → Type 0
Kept e files =
    IsFile e → (file_at (relative e) files ≡ some e.content) × (pos (length e.content) ≡ e.size)

-- What an entry does to the files.
abbrev pub Outcome : List ℕ → Entry → Tree → Tree → Type 0
Outcome path e files files' =
    ((files' ≡ files) × (IsFile e → ⊥))
    ⊎ (IsFile e × (files' ≡ write_file path e.content files) × (pos (length e.content) ≡ e.size))

pub record IsKind (path : List ℕ) (e : Entry) (x x' : Extraction) : Type 0 where
  pub outcome : Outcome path e x.disk.files x'.disk.files
  pub seen : x'.seen ≡ x.seen
  pub links : IsInside path → Every IsInside (paths_of x.links) → Every IsInside (paths_of x'.links)

extract_file-files :
    (path : List ℕ) (e : Entry) (disk disk' : Disk)
    → extract_file path e disk ≡ ok disk'
    → (disk'.files ≡ write_file path e.content disk.files) × (pos (length e.content) ≡ e.size)
unfolding extract_file set_mode
extract_file-files path e disk disk' returned =
    >>=-elim (write_new path e.content disk) returned λ written wrote rest.
      require-elim (leb_ℤ (pos (length e.content)) e.size && leb_ℤ e.size (pos (length e.content)))
        "Truncated JDK archive file" rest
        λ same last.
          rw (sym (ok-injective last))
            (write_new-files path e.content disk written wrote, ground arith)

extract_link-IsKind :
    (root path : List ℕ) (e : Entry) (x x' : Extraction)
    → (IsFile e → ⊥)
    → extract_link root path e x ≡ ok x'
    → IsKind path e x x'
unfolding extract_link
extract_link-IsKind root path e x x' other returned =
    >>=-elim (alias_target root path e) returned λ target _ rest.
      rw (sym (ok-injective rest)) (record {
        outcome = inl (refl, other);
        seen = refl;
        links = λ inside all. paths_of-write_file-Every IsInside path target x.links inside all;
      })

pub extract_kind-IsKind :
    (kind : EntryKind) (root path : List ℕ) (e : Entry) (x x' : Extraction)
    → e.kind ≡ kind
    → extract_kind kind root path e x ≡ ok x'
    → IsKind path e x x'
unfolding extract_kind
extract_kind-IsKind EntryKind.directory root path e x x' is returned =
    >>=-elim (make_directory path x.disk) returned λ disk made rest.
      rw (sym (ok-injective rest)) (record {
        outcome = inl (make_directory-files path x.disk disk made, (λ file. cc));
        seen = refl;
        links = λ inside all. all;
      })
extract_kind-IsKind EntryKind.file root path e x x' is returned =
    >>=-elim (extract_file path e x.disk) returned λ disk wrote rest.
      let (files, sized) = extract_file-files path e x.disk disk wrote in
      rw (sym (ok-injective rest))
        (record { outcome = inr (is, files, sized); seen = refl; links = λ inside all. all })
extract_kind-IsKind EntryKind.link root path e x x' is returned =
    extract_link-IsKind root path e x x' (λ file. cc) returned
extract_kind-IsKind EntryKind.hardlink root path e x x' is returned =
    extract_link-IsKind root path e x x' (λ file. cc) returned
extract_kind-IsKind EntryKind.unsupported root path e x x' is returned = cc

pub below_root :
    (name : List ℕ) (words : List (List ℕ))
    → is_unsafe name ≡ false
    → rest_of (parts name) ≡ words
    → (as_posix words ≟ dot) ≡ false
    → IsInside (as_posix words)
unfolding as_posix ◌≟◌
below_root name [] safe is other = cc
below_root name (w ∷ ws) safe is other = inside name w ws safe is
