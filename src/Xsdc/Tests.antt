-- ===== src/Xsdc/Tests.antt =====
-- scripts/xsdc.py on one pinned file, whose generated text has a CR LF, and on a finished generation.
use artbox.Base.{
  ℕ, Bool, true, false, some, List, [], ◌∷◌, Result, ok, ◌≡◌, refl, length, if◌then◌else◌, ◌==◌,
}
use artbox.Base.Int.{pos}
use artbox.Base.Text.{codes, ◌≟◌}
use artbox.Paths.{
  contains, has_char, parts, split_slash, keep_parts, as_posix, join_slash, dirname, join, parents,
  prefixes, strip_slashes, to_last_slash,
}
use artbox.Sources.Archive.{starts_with}
use artbox.Sources.Selection.{all_in}
use artbox.Tree.{file_at, write_file, paths_of}
use artbox.Tree.Disk.{
  empty_disk, any_directory, any_file_below, any_is_file, make_directory, write_new,
}
use artbox.Report.Value.{
  Value, text, boolean, object, no_fields, field, field_of, item_of, get_of, is_text, number_of,
  at_most, count_fields, fields_of, same_value, same_fields, all_fields,
}
use artbox.Shell.{◌>>=◌, Command, begins_with, has_text}
use artbox.Xsdc.{
  FoundPath, plain, folder, real, Hashes, found_files, listed_files, check_components,
  write_generated, verify_generation, expected_controls,
}
use artbox.Xsdc.Rounds.{
  Answer, Work, Words, found_at, to_line_feeds, run_words, keep_file, keep_files, compare_file,
  compare_files, attempt, run_controls, generate_twice,
}
use artbox.Xsdc.Twice.{IsRepeatable, generate_twice-IsRepeatable}

abbrev digest : List ℕ → List ℕ
digest contents = contents

abbrev no_alias : List ℕ → Bool
no_alias path = false

abbrev anywhere : List ℕ → Bool
anywhere path = true

abbrev passed : List FoundPath → Answer
passed found = record { ran = record { code = pos 0; out = []; errors = [] }; listing = real found }

abbrev failed : List ℕ → Answer
failed message = record {
  ran = record { code = pos 1; out = []; errors = message };
  listing = real [];
}

abbrev source : List FoundPath
source = folder (codes "p") ∷ plain (codes "p/A.java") (120 ∷ 13 ∷ 10 ∷ []) ∷ []

abbrev answer : ℕ → Answer
answer n =
    if n == 2
    then passed source
    else if n == 3
    then passed source
    else if n == 4
    then failed (codes "SAXParseException: 1")
    else if n == 5
    then failed (codes "Invalid root element")
    else passed []

abbrev respond : List (Command × Result Answer) → Command → Result Answer
respond asked words = ok (answer (length asked))

abbrev pins : Hashes
pins = (codes "p/A.java", 120 ∷ 10 ∷ []) ∷ []

abbrev six_commands : Words
six_commands = record {
  version = codes "javac" ∷ [];
  compile = codes "javac" ∷ [];
  generator = codes "java" ∷ [];
  options = codes "apex-info-list" ∷ [];
  scratch = codes "s";
  schema = codes "a.xsd";
}

abbrev start : Work
start = record { asked = []; disk = empty_disk; raw_hashes = [] }

abbrev run : Work × Result (Unit {0})
run = generate_twice digest no_alias anywhere respond six_commands pins start

generated : run ≡ (run.0, ok tt)
unfolding generate_twice ◌>>=◌ run_words attempt keep_files keep_file compare_files compare_file
    run_controls listed_files found_files found_at to_line_feeds has_char write_generated
    check_components contains parts split_slash keep_parts ◌≟◌ as_posix join_slash dirname join
    parents prefixes strip_slashes to_last_slash starts_with file_at write_file paths_of
    any_directory any_file_below any_is_file make_directory write_new all_in begins_with has_text
generated = refl

-- The kept source has no CR.
kept : file_at (codes "generated/p/A.java") run.0.disk.files ≡ some (120 ∷ 10 ∷ [])
unfolding generate_twice ◌>>=◌ run_words attempt keep_files keep_file compare_files compare_file
    run_controls listed_files found_files found_at to_line_feeds has_char write_generated
    check_components contains parts split_slash keep_parts ◌≟◌ as_posix join_slash dirname join
    parents prefixes strip_slashes to_last_slash starts_with file_at write_file paths_of
    any_directory any_file_below any_is_file make_directory write_new all_in begins_with has_text
kept = refl

generate_twice-IsRepeatable_example :
    IsRepeatable digest no_alias anywhere respond six_commands pins start run.0
generate_twice-IsRepeatable_example =
    generate_twice-IsRepeatable digest no_alias anywhere respond six_commands pins start run.0 tt
      generated

abbrev pinned : Value
pinned = object (field (codes "p/A.java") (text (120 ∷ 10 ∷ [])) no_fields)

abbrev pin : Value
pin = object (
    field (codes "compiler_options") (text (codes "o"))
      (field (codes "generated_files") pinned no_fields))

abbrev recorded : Value
recorded = object (
    field (codes "pin_sha256") (text (codes "h")) (
      field (codes "compiler_options") (text (codes "o")) (
        field (codes "generated_files") pinned (
          field (codes "deterministic_generation_verified") (boolean true)
            (field (codes "negative_controls") expected_controls no_fields)))))

verified :
    verify_generation digest
      (codes "h")
      pin
      recorded
      (real (plain (codes "p/A.java") (120 ∷ 10 ∷ []) ∷ []))
    ≡ ok recorded
unfolding verify_generation listed_files found_files item_of get_of field_of is_text number_of
    at_most count_fields fields_of same_value same_fields all_fields ◌≟◌
verified = refl
