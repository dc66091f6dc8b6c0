-- ===== src/Report/Tests.antt =====
-- Reports that are accepted, and an application of one image.
use artbox.Base.{
  ℕ, ◌*◌, if◌then◌else◌, Bool, true, false, String, List, [], ◌∷◌, ok, err, Option, none, some,
  Result, ◌≡◌, refl,
}
use artbox.Base.Bytes.{to_le}
use artbox.Base.Int.{ℤ, pos, negsuc}
use artbox.Base.Text.{codes, ◌≟◌}
use artbox.Paths.{contains}
use artbox.Sources.Selection.{all_in}
use artbox.WrapDynamic.Tests.{digest, guest_layout, dylib, dylib-placed}
use artbox.Report.Value.{
  Value, boolean, integer, object, Fields, no_fields, field, field_of, fields_of, item_of, get_of,
  is_true, is_false, truth, number_of, int_of, at_most, same_value, count_fields,
}
use artbox.Report.Checks.{all_get_true, all_item_true, all_positive, or_incomplete}
use artbox.Report.Service.{
  labels, field_names, set_of, is_exactly, all_exact, check_case, check_cases, validate_service,
}
use artbox.Report.Art.{
  mebibyte, ordered_ints, reserves, has_window, thread_state, native_complete, memory_bounded,
  collected, worker_stacked, check_parts, validate_art,
}
use artbox.Report.Ran.{IsRan, validate_art-IsRan}
use artbox.Report.Embedded.{
  Staged, check_digest, check_digests, check_signed, check_art_images, check_manifest, verify_art,
}
use artbox.Report.Intact.{IsEmbedded, verify_art-IsEmbedded}

abbrev set : String → ℕ → Fields → Fields
set key n rest = field (codes key) (integer (pos n)) rest

abbrev mark : String → Bool → Fields → Fields
mark key b rest = field (codes key) (boolean b) rest

abbrev execution : ℤ → Bool → Value
execution access roles = object (
    set "exit" 0 (
      field (codes "native")
        (object (
          field (codes "access_cases") (integer access) (
            set "policy_cases" 5 (
              set "provider" (if roles then 32 else 0) (
                set "client" (if roles then 32 else 0) (
                  set "roles" (if roles then 3 else 1) (
                    set "independent_images" (if roles then 18 else 6) (
                      mark "manager_retained" roles (
                        mark "finite_roles_cleaned" true (
                          mark "passed" true
                            (set "elapsed_ns" 9 (set "peak_rss_bytes" 8 no_fields))))))))))))
        no_fields))

abbrev service : Value
service = object (
    mark "guest_execution_verified" true (
      mark "working_tree_dirty" false (
        field (codes "executions")
          (object (
            field (codes "roles") (execution (pos 0) true) (
              field (codes "access") (execution (pos 20) false) (
                field (codes "wrong-uid") (execution (negsuc 108) false)
                  (field (codes "wrong-pid") (execution (negsuc 106) false) no_fields)))))
          no_fields)))

service-valid : validate_service service ≡ ok tt
unfolding validate_service check_cases check_case all_exact is_exactly all_positive set_of
    field_names labels all_in contains item_of get_of field_of is_true is_false truth int_of
    or_incomplete ◌≟◌
service-valid = refl

-- A report without its executions.
service-short :
    validate_service
      (object (mark "guest_execution_verified" true (mark "working_tree_dirty" false no_fields)))
    ≡ err "Incomplete service acceptance report"
unfolding validate_service item_of field_of is_true is_false or_incomplete ◌≟◌
service-short = refl

abbrev native_report : Value
native_report = object (
    set "linked_images" 15 (
      set "constructors" 40 (
        set "tls_modules" 2 (
          set "registered_vms" 0 (
            mark "cleanup" true (
              mark "heap_binding_verified" true (
                mark "runtime_started" true (
                  mark "dex_executed" true (
                    set "startup_ns" 5 (
                      set "managed_bytes" 6 (
                        set "process_peak_rss_bytes" 7 (
                          set "threads_reaped" 1 (
                            set "reserved_bytes" 1000 (
                              set "vm_budget_bytes" (1536 * mebibyte) (
                                set "bootstrap_window_bytes" 65536 (
                                  set "managed_window_bytes" (512 * mebibyte)
                                    no_fields))))))))))))))))

abbrev art : Value
art = object (
    mark "passed" true (
      mark "runtime_invocation_attempted" true (
        mark "runtime_started" true (
          mark "dex_executed" true (
            mark "lifecycle_verified" true (
              mark "console_verified" true (
                mark "console_drop_detected" true (
                  mark "missing_hello_detected" true (
                    set "exit" 0 (
                      set "missing_hello_exit" 1 (
                        set "console_drop_exit" 3 (
                          field (codes "native") native_report (
                            field (codes "managed_checks")
                              (object (
                                set "heap_checksum" 6496 (
                                  set "exceptions" 3 (
                                    set "attachments" 4
                                      (set "gc_before" 1 (set "gc_after" 2 no_fields))))))
                              (field (codes "thread_state_checks") thread_state (
                                field (codes "vm_worker")
                                  (object (
                                    mark "primordial" false (
                                      mark "current_in_stack" true (
                                        set "requested_stack_bytes" (4 * mebibyte) (
                                          set "reported_stack_bytes" 4000
                                            (set "guard_bytes" 16 no_fields))))))
                                  no_fields)))))))))))))))

art-valid : validate_art art ≡ ok tt
unfolding validate_art check_parts native_complete memory_bounded collected worker_stacked reserves
    has_window ordered_ints all_get_true all_item_true all_positive item_of get_of field_of is_true
    is_false truth int_of number_of at_most same_value count_fields or_incomplete ◌≟◌ fields_of
art-valid = refl

validate_art-IsRan_example : IsRan art
validate_art-IsRan_example = validate_art-IsRan art art-valid

abbrev image : Staged
image = record {
  framework = codes "G";
  elf = codes "g.so";
  elf_sha256 = digest (codes "elf");
  layout = guest_layout;
  placed = (16384, 32768, digest dylib);
  notices = (codes "NOTICE", digest (codes "n")) ∷ [];
}

abbrev files : List ℕ → Option (List ℕ)
files path =
    if path ≟ codes "A/ARTBoxM3/manifest.json"
    then some (codes "{}")
    else if path ≟ codes "A/ARTBoxM3/ELF/g.so"
    then some (codes "elf")
    else if path ≟ codes "A/Frameworks/G.framework/G"
    then some dylib
    else if path ≟ codes "A/Frameworks/G.framework/NOTICE"
    then some (codes "n")
    else if path ≟ codes "A/ARTBoxM3/root/data/hello.dex"
    then some (codes "dex")
    else none

abbrev parse : List ℕ → Result Value
parse text = ok (object no_fields)

abbrev items : List (List ℕ × List ℕ)
items = (codes "data/hello.dex", digest (codes "dex")) ∷ []

image_signed :
    check_signed digest files "Embedded ART signed image changed"
      (codes "A/Frameworks/G.framework/G")
      image
    ≡ ok tt
unfolding check_signed to_le ◌≟◌
image_signed = rw dylib-placed refl

embedded : verify_art digest files parse (codes "A") (object no_fields) (image ∷ []) items ≡ ok tt
unfolding verify_art check_manifest check_art_images check_digest check_digests same_value
    count_fields ◌≟◌ fields_of
embedded = rw image_signed refl

verify_art-IsEmbedded_example :
    IsEmbedded digest files parse (codes "A") (object no_fields) (image ∷ []) items
verify_art-IsEmbedded_example =
    verify_art-IsEmbedded digest files parse (codes "A") (object no_fields) (image ∷ []) items
      embedded
