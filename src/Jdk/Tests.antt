-- ===== src/Jdk/Tests.antt =====
-- The extraction of a small archive: a program, a link to it and a hard link.
use artbox.Base.{List, [], ◌∷◌, ok, err, ◌≡◌, refl}
use artbox.Base.Int.{pos, ◌+ℤ◌}
use artbox.Base.Text.{codes, ◌≟◌}
use artbox.Paths.{
  contains, has_char, split_slash, keep_parts, parts, join_slash, as_posix, prefixes, parents,
  to_last_slash, strip_slashes, dirname, join, normal_parts, reverse_onto, normpath,
}
use artbox.Sources.Archive.{starts_with}
use artbox.Tree.{file_at, write_file}
use artbox.Tree.Disk.{
  Disk, any_directory, any_file_below, any_is_file, exists, make_directory, write_new, set_mode,
  mode_at,
}
use artbox.Jdk.{
  EntryKind, Entry, extract_file, hard_target, alias_target, extract_link, extract_kind,
  extract_below, extract_at, extract_entry, extract_entries, resolve_alias, copy_alias,
  copy_aliases, extract,
}
use artbox.Jdk.Extracted.{IsExtracted, extract-IsExtracted}
use artbox.Jdk.Obtain.{lower}

abbrev plain : Entry
plain = record {
  name = codes "jdk/bin/java";
  kind = EntryKind.file;
  mode = 33261;
  size = pos 3;
  content = codes "run";
  target = [];
}

abbrev entries : List Entry
entries =
    record {
      name = codes "jdk";
      kind = EntryKind.directory;
      mode = 493;
      size = pos 0;
      content = [];
      target = [];
    }
    ∷ plain
    ∷ record {
      name = codes "jdk/lib/j";
      kind = EntryKind.link;
      mode = 511;
      size = pos 0;
      content = [];
      target = codes "../alias";
    }
    ∷ record {
      name = codes "jdk/alias";
      kind = EntryKind.hardlink;
      mode = 493;
      size = pos 0;
      content = [];
      target = codes "jdk/bin/java";
    }
    ∷ []

abbrev disk : Disk
disk = record {
  files =
      (codes "bin/java", codes "run")
      ∷ (codes "lib/j", codes "run")
      ∷ (codes "alias", codes "run")
      ∷ [];
  directories = [];
  modes = (codes "alias", 493) ∷ (codes "lib/j", 493) ∷ (codes "bin/java", 493) ∷ [];
}

extract_test : extract lower (codes "jdk") entries ≡ ok disk
unfolding extract copy_aliases copy_alias resolve_alias extract_entries extract_entry extract_at
    extract_below extract_kind extract_link alias_target hard_target extract_file mode_at set_mode
    write_new make_directory exists any_is_file any_file_below any_directory write_file file_at
    starts_with ◌+ℤ◌ normpath reverse_onto normal_parts join dirname strip_slashes to_last_slash
    parents prefixes as_posix join_slash parts keep_parts split_slash has_char contains ◌≟◌
extract_test = refl

extract-IsExtracted_example : IsExtracted lower (codes "jdk") entries disk
extract-IsExtracted_example = extract-IsExtracted lower (codes "jdk") entries disk extract_test

-- A file that is shorter than the archive says, and a link out of the tree.
truncated_test :
    extract lower (codes "jdk") (record plain { size = pos 4 } ∷ [])
    ≡ err "Truncated JDK archive file"
unfolding extract extract_entries extract_entry extract_at extract_below extract_kind extract_file
    set_mode write_new any_is_file any_file_below any_directory write_file file_at starts_with ◌+ℤ◌
    parents prefixes as_posix join_slash parts keep_parts split_slash has_char contains ◌≟◌
truncated_test = refl
