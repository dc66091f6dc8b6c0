-- ===== src/Jdk/Obtain/Tests.antt =====
-- An installation on a small archive. The text of a record is a length before each of its texts; an
-- archive is the bytes of its only program.
use artbox.Base.{
  ℕ, zero, suc, if◌then◌else◌, List, [], ◌∷◌, ◌++◌, length, take, drop, ok, err, none, some, Result,
  ◌≡◌, ◌⊎◌, refl, ap, false,
}
use artbox.Base.Int.{pos, ◌+ℤ◌}
use artbox.Base.Text.{codes, ◌≟◌}
use artbox.Paths.{
  contains, has_char, split_slash, keep_parts, parts, join_slash, as_posix, prefixes, parents, join,
}
use artbox.Sources.Archive.{starts_with}
use artbox.Tree.{file_at, write_file}
use artbox.Tree.Disk.{Disk, any_directory, any_file_below, any_is_file, write_new, set_mode}
use artbox.Jdk.{
  EntryKind, Entry, extract_file, extract_kind, extract_below, extract_at, extract_entry,
  extract_entries, copy_aliases, extract,
}
use artbox.Jdk.Obtain.{
  Spec, Installed, Cache, machine_name, spec_of, pinned_spec, lower, marker, verify_archive,
  fetch_archive, digests, install, install_fresh, obtain_spec, obtain_pinned, obtain,
}
use artbox.Jdk.Obtain.Again.{HasMarker, obtain_again}

abbrev put_text : List ℕ → List ℕ → List ℕ
put_text text rest = length text ∷ (text ++ rest)

abbrev put_files : List (List ℕ × List ℕ) → List ℕ
put_files [] = 0 ∷ []
put_files (f ∷ fs) = 1 ∷ put_text f.0 (put_text f.1 (put_files fs))

abbrev render : Installed → List ℕ
render r = put_text r.archive.name (
    put_text r.archive.home (
      put_text r.archive.root
        (r.archive.bytes ∷ put_text r.archive.sha256 (length r.files ∷ put_files r.files))))

abbrev text_of : List ℕ → List ℕ
text_of [] = []
text_of (n ∷ rest) = take n rest

abbrev behind : List ℕ → List ℕ
behind [] = []
behind (n ∷ rest) = drop n rest

abbrev get_files : ℕ → List ℕ → List (List ℕ × List ℕ)
get_files zero text = []
get_files (suc n) text =
    let entry = drop 1 text in
    (text_of entry, text_of (behind entry)) ∷ get_files n (behind (behind entry))

abbrev head_of : List ℕ → ℕ
head_of [] = 0
head_of (n ∷ rest) = n

abbrev parse : List ℕ → Result Installed
parse text =
    let home = behind text in
    let root = behind home in
    let number = behind root in
    let hash = drop 1 number in
    let files = behind hash in
    ok (record {
      archive = record {
        name = text_of text;
        home = text_of home;
        root = text_of root;
        bytes = head_of number;
        sha256 = text_of hash;
      };
      files = get_files (head_of files) (drop 1 files);
    })

take-append : (xs ys : List ℕ) → take (length xs) (xs ++ ys) ≡ xs
take-append [] ys = refl
take-append (x ∷ xs) ys = ap (λ (zs : List ℕ). x ∷ zs) (take-append xs ys)

drop-append : (xs ys : List ℕ) → drop (length xs) (xs ++ ys) ≡ ys
drop-append [] ys = refl
drop-append (x ∷ xs) ys = drop-append xs ys

get_files-put_files : (fs : List (List ℕ × List ℕ)) → get_files (length fs) (put_files fs) ≡ fs
get_files-put_files [] = refl
get_files-put_files (f ∷ fs) =
    rw
      (
        take-append f.0 (put_text f.1 (put_files fs)),
        drop-append f.0 (put_text f.1 (put_files fs)),
        take-append f.1 (put_files fs),
        drop-append f.1 (put_files fs),
        get_files-put_files fs,
      )
      refl

parse-render : (r : Installed) → parse (render r) ≡ ok r
parse-render r =
    let files = length r.files ∷ put_files r.files in
    let hash = put_text r.archive.sha256 files in
    let root = put_text r.archive.root (r.archive.bytes ∷ hash) in
    let home = put_text r.archive.home root in
    rw
      (
        take-append r.archive.name home,
        drop-append r.archive.name home,
        take-append r.archive.home root,
        drop-append r.archive.home root,
        take-append r.archive.root (r.archive.bytes ∷ hash),
        drop-append r.archive.root (r.archive.bytes ∷ hash),
        take-append r.archive.sha256 files,
        drop-append r.archive.sha256 files,
        get_files-put_files r.files,
      )
      refl

abbrev digest : List ℕ → List ℕ
digest bytes = take 2 bytes

abbrev program : List ℕ
program = codes "run"

abbrev entries : List Entry
entries =
    record {
      name = codes "jdk/home/bin/java";
      kind = EntryKind.file;
      mode = 493;
      size = pos 3;
      content = program;
      target = [];
    }
    ∷ []

abbrev read : List ℕ → Result (List Entry)
read bytes = if bytes ≟ program then ok entries else err "ReadError"

abbrev disk : Disk
disk = record {
  files = (codes "home/bin/java", program) ∷ [];
  directories = [];
  modes = (codes "home/bin/java", 493) ∷ [];
}

extracted : extract lower (codes "jdk") entries ≡ ok disk
unfolding extract copy_aliases extract_entries extract_entry extract_at extract_below extract_kind
    extract_file set_mode write_new any_is_file any_file_below any_directory write_file file_at
    starts_with ◌+ℤ◌ parents prefixes as_posix join_slash parts keep_parts split_slash has_char
    contains ◌≟◌
extracted = refl

abbrev spec : Spec
spec = record {
  name = codes "jdk.zip";
  home = codes "home";
  root = codes "jdk";
  bytes = 3;
  sha256 = codes "ru";
}

abbrev archives : List (List ℕ × Spec)
archives = (codes "linux-x64", spec) ∷ []

abbrev nothing : Cache
nothing = record {
  installed_alias = false;
  installed = none;
  archive_alias = false;
  archive = none;
}

abbrev made_record : Installed
made_record = record { archive = spec; files = (codes "home/bin/java", codes "ru") ∷ [] }

abbrev full : Cache
full = record {
  installed_alias = false;
  installed = some ((codes "home/bin/java", program) ∷ (marker, render made_record) ∷ []);
  archive_alias = false;
  archive = some program;
}

obtained :
    obtain digest lower parse render read
      (codes "java")
      (ok program)
      archives
      (codes "linux")
      (codes "x86_64")
      nothing
    ≡ ok (spec, full)
unfolding obtain obtain_pinned obtain_spec install_fresh install fetch_archive verify_archive
    digests pinned_spec machine_name spec_of extract copy_aliases extract_entries extract_entry
    extract_at extract_below extract_kind extract_file set_mode write_new any_is_file any_file_below
    any_directory write_file file_at starts_with ◌+ℤ◌ parents prefixes as_posix join_slash parts
    keep_parts split_slash join has_char contains ◌≟◌
obtained = refl

obtain_again_example :
    (obtain digest lower parse render read
        (codes "java")
        (err "no network")
        archives
        (codes "linux")
        (codes "x86_64")
        full
      ≡ ok (spec, full))
    ⊎ HasMarker digest lower parse render read (codes "java") parse-render spec nothing
obtain_again_example =
    obtain_again digest lower parse render read (codes "java") parse-render (ok program)
      (err "no network") archives (codes "linux") (codes "x86_64") nothing full spec obtained
