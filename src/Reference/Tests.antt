-- ===== src/Reference/Tests.antt =====
-- scripts/binder_reference.py on concrete hosts: a run that returns, one whose mount fails, and the
-- comparison of the portable driver.
use artbox.Base.{
  ℕ, leb, ◌==◌, ◌&&◌, if◌then◌else◌, Bool, false, Option, some, String, List, [], ◌∷◌, length,
  Result, ok, err, ◌≡◌, refl,
}
use artbox.Base.Int.{pos}
use artbox.Base.Text.{codes, ◌≟◌}
use artbox.Report.Value.{
  Value, null, object, same_value, same_fields, all_fields, field_of, item_of, count_fields,
  number_of, at_most, fields_of,
}
use artbox.Paths.{parts, keep_parts, split_slash, join}
use artbox.Shell.{
  ◌>>=◌, begins_with, Command, Ran, rstrip, lstrip, first_word, log_entry, join_texts,
}
use artbox.Reference.{
  Spec, Places, State, Evidence, tools_of, words, count_checks, expected_native, expected_unload,
}
use artbox.Reference.Native.{
  Host, invoke, refcount, wait_released, release_module, unmount, clean_up, check_module, measure,
  exercise, run_checked, run_found, run_native,
}
use artbox.Reference.Expected.{
  Expectation, fields_from, check_output, driver_table, vfs_table, receive_table, transaction_table,
}
use artbox.Reference.Compare.{
  Driver, Compared, Outside, ask, run_logged, run_builds, run_private, run_programs,
  compare_outputs, compare_driver,
}
use artbox.Reference.Compared.{IsCompared, compare_driver-IsCompared}
use artbox.Reference.Unmounted.{IsUnmounted, run_native-IsUnmounted}
use artbox.Reference.Returned.{IsEvidence, run_native-IsEvidence}

abbrev is_word : ℕ → Bool
is_word c = leb 97 c && leb c 122

abbrev exit : ℕ → String → Result Ran
exit code out = ok (record { code = pos code; out = codes out; errors = [] })

-- The answers of a host on which the last arguments is the exit of mount.
abbrev answers : ℕ → ℕ → Result Ran
answers mount n =
    if n == 0
    then exit 0 "6.1 SMP"
    else if n == 1
    then exit 0 "GPL v2"
    else if n == 4
    then exit mount ""
    else if n == 5
    then exit 0 "fixture"
    else exit 0 ""

abbrev native_parse : List ℕ → Result Value
native_parse text =
    if text ≟ codes "fixture"
    then ok (expected_native (pos 1) (pos 1) (pos 1))
    else ok expected_unload

abbrev pinned : Spec
pinned = record {
  kernel = codes "6.1";
  architecture = codes "x86_64";
  module_path = codes "lib/binder.ko";
}

abbrev places : Places
places = record { root = codes "r"; build = codes "b"; installed = codes "i" }

abbrev linux_host : ℕ → Host
linux_host mount = record {
  system = codes "linux";
  release = codes "6.1";
  machine = codes "x86_64";
  which = λ name. some name;
  module_there = λ history. leb 1 (length history);
  mount_alias = false;
  mount_occupied = false;
  respond = λ history _. answers mount (length history);
  read_text = λ path. ok (codes "CHECK(a) CHECK(b) xCHECK(c)");
  read_refcount = λ history n. ok (pos 0);
  digest_of = λ path. ok (codes "sha");
  rounds = 3;
}

abbrev evidence : Evidence
evidence = record {
  result = expected_native (pos 1) (pos 1) (pos 1);
  vermagic = codes "6.1 SMP";
  module_license = codes "GPL v2";
  runner_sha256 = codes "sha";
  unload_probe = some expected_unload;
}

abbrev finished : State
finished = (run_native is_word native_parse (linux_host 0) pinned places).0

returned : run_native is_word native_parse (linux_host 0) pinned places ≡ (finished, ok evidence)
unfolding run_native ◌≟◌ run_found tools_of ◌>>=◌ run_checked clean_up unmount exercise check_module
    measure invoke words count_checks begins_with expected_native same_value field_of count_fields
    number_of at_most fields_of rstrip lstrip first_word release_module wait_released refcount parts
    keep_parts split_slash log_entry join_texts same_fields all_fields
returned = refl

run_native-IsEvidence_example : IsEvidence (linux_host 0) pinned places finished evidence
run_native-IsEvidence_example =
    run_native-IsEvidence is_word native_parse (linux_host 0) pinned places finished evidence
      returned

run_native-IsUnmounted_example :
    IsUnmounted (run_native is_word native_parse (linux_host 1) pinned places).0
run_native-IsUnmounted_example =
    run_native-IsUnmounted is_word native_parse (linux_host 1) pinned places

abbrev reference : Value
reference = expected_native (pos 1) (pos 1) (pos 1)

abbrev table_value : List (String × Expectation) → Value
table_value table = elim (fields_from reference table) [ ok made ↦ object made | err e ↦ null ]

-- A program prints its own name, which parses to what is expected of it.
abbrev driver_parse : List ℕ → Result Value
driver_parse text = ok (
    if text ≟ codes "b/test_binder_device"
    then table_value driver_table
    else if text ≟ codes "b/test_binder_vfs"
    then table_value vfs_table
    else if text ≟ codes "b/test_binder_receive"
    then table_value receive_table
    else table_value transaction_table)

abbrev program_of : Command → List ℕ
program_of [] = []
program_of (w ∷ ws) = w

abbrev outside : Outside
outside = record {
  respond = λ asked command. ok (record { code = pos 0; out = program_of command; errors = [] });
  left = λ asked. false;
  private_root = λ prefix. codes prefix;
  digest_of = λ path. ok path;
}

abbrev no_driver : Driver
no_driver = record { asked = []; log = [] }

abbrev cmake : Option (List ℕ)
cmake = some (codes "cmake")

abbrev programs : Compared
programs = record {
  driver = (table_value driver_table, codes "b/test_binder_device");
  vfs = (table_value vfs_table, codes "b/test_binder_vfs");
  receive = (table_value receive_table, codes "b/test_binder_receive");
  transactions = (table_value transaction_table, codes "b/test_binder_transactions");
}

abbrev all_asked : Driver
all_asked =
    (compare_driver outside (codes "b") driver_parse reference (codes "r") cmake no_driver).0

compared :
    compare_driver outside (codes "b") driver_parse reference (codes "r") cmake no_driver
    ≡ (all_asked, ok programs)
unfolding compare_driver run_programs compare_outputs run_builds run_logged run_private ask ◌>>=◌
    check_output fields_from expected_native ◌≟◌ field_of item_of same_value same_fields all_fields
    count_fields number_of at_most fields_of join
compared = refl

compare_driver-IsCompared_example :
    (tool : List ℕ) × (cmake ≡ some tool)
    × IsCompared outside
        (codes "b")
        (codes "r")
        tool
        driver_parse
        reference
        all_asked.asked
        programs
compare_driver-IsCompared_example =
    compare_driver-IsCompared outside (codes "b") (codes "r") cmake driver_parse reference no_driver
      all_asked programs refl compared
