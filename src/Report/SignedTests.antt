-- ===== src/Report/SignedTests.antt =====
-- scripts/looper_guest.py and scripts/kernel_config_guest.py on small reports.
use artbox.Base.{
  ℕ, true, false, Option, some, String, List, [], ◌∷◌, Result, ok, if◌then◌else◌, ◌≡◌, refl,
}
use artbox.Base.Int.{pos}
use artbox.Base.Text.{codes, ◌≟◌}
use artbox.Paths.{contains, join}
use artbox.Sources.Selection.{all_in}
use artbox.Report.Value.{
  Value, boolean, integer, text, object, Fields, no_fields, field, field_of, item_of, get_of,
  is_text, is_false, number_of, int_of, at_most, count_fields, fields_of, same_value, same_fields,
  all_fields,
}
use artbox.Report.Service.{Exact, is_exactly, field_names, set_of}
use artbox.Report.Served.{exact_value}
use artbox.Report.Signed.{
  values_of, all_ints, ownership, all_get_exact, all_get_positive, check_owned, looper_row,
  looper_expected, check_looper, verify_looper, kernel_expected, verify_contract,
  verify_kernel_reference, verify_input, verify_inputs, finish_kernel_build, verify_kernel_build,
}
use artbox.Report.Owned.{IsLooper, verify_looper-IsLooper}
use artbox.Report.Produced.{IsBuilt, IsReference, verified_kernel_build}

abbrev owned : List (List ℕ × Exact) → Fields → Fields
owned [] rest = rest
owned (e ∷ es) rest = field e.0 (exact_value e.1) (owned es rest)

abbrev timed : String → Fields → Fields
timed key rest = field (codes key) (integer (pos 5)) rest

abbrev looper_result : Value
looper_result = object (
    field (codes "looper") (looper_row (pos 0) (pos 43) (pos 0) (pos 1) (pos 3) (pos 1) (pos 1)) (
      timed "constructors" (
        timed "looper_check_ns"
          (timed "load_relocate_ns" (timed "bootstrap_ns" (owned (ownership (pos 1)) no_fields))))))

looped : verify_looper (codes "normal") (integer (pos 0)) looper_result ≡ ok looper_result
unfolding verify_looper check_looper looper_expected get_of field_of same_value same_fields
    all_fields count_fields fields_of number_of at_most values_of all_ints int_of check_owned
    all_get_exact all_get_positive is_exactly ◌≟◌
looped = refl

verify_looper-IsLooper_example :
    (looper_result ≡ looper_result) × IsLooper (codes "normal") (integer (pos 0)) looper_result
verify_looper-IsLooper_example =
    verify_looper-IsLooper (codes "normal") (integer (pos 0)) looper_result looper_result looped

abbrev entry_text : String → String → Fields → Fields
entry_text key value rest = field (codes key) (text (codes value)) rest

abbrev runtime : Value
runtime = object (entry_text "member_sha256" "d" no_fields)

abbrev objects : Value
objects = object (
    entry_text "check.o" "d" (
      entry_text "KernelConfigParser.o" "d"
        (entry_text "regex.cpp.o" "d" (entry_text "reference-main.o" "d" no_fields))))

abbrev build : Value
build = object (
    entry_text "project_commit" "rev" (
      field (codes "working_tree_dirty") (boolean false) (
        field (codes "objects") objects (
          field (codes "regex_runtime") runtime (
            field (codes "project_sources") (object (entry_text "a.py" "d" no_fields)) (
              entry_text "reference_sha256" "d"
                (entry_text "source_bundle_sha256" "d" no_fields)))))))

abbrev reference : Value
reference = object (
    field (codes "native_linux_execution_verified") (boolean true) (
      entry_text "project_commit" "rev" (
        entry_text "build_result_sha256" "b" (
          field (codes "objects") objects (
            entry_text "reference_sha256" "d" (
              entry_text "source_bundle_sha256" "d" (
                field (codes "exit") (integer (pos 0))
                  (field (codes "native") kernel_expected no_fields))))))))

abbrev digest_of : List ℕ → Option (List ℕ)
digest_of path = some (codes "d")

abbrev read : List ℕ → Result Value
read path = ok (if path ≟ codes "out/result.json" then build else runtime)

built : verify_kernel_build digest_of read (codes "r") (codes "out") (codes "rev") ≡ ok build
unfolding verify_kernel_build finish_kernel_build verify_inputs verify_input item_of field_of
    is_text is_false same_value same_fields all_fields count_fields fields_of set_of field_names
    all_in contains values_of join ◌≟◌
built = refl

referred : verify_kernel_reference reference build (codes "b") ≡ ok tt
unfolding verify_kernel_reference verify_contract get_of item_of field_of is_text is_exactly
    same_value same_fields all_fields count_fields fields_of number_of at_most values_of all_ints
    int_of ◌≟◌
referred = refl

verified_kernel_build_example :
    IsBuilt digest_of read (codes "r") (codes "out") (codes "rev") build
    × IsReference reference build (codes "b")
verified_kernel_build_example =
    verified_kernel_build digest_of read (codes "r") (codes "out") (codes "rev") build reference
      (codes "b") built referred
